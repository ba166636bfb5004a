-- ===== src/Packages/UploadTests.antt =====
-- The upload of concrete files (PackagesPage.tsx).
use bv_orchestrator.Packages.Upload.{
  UploadPage, upload_error, upload_each, submit_upload, ends_with,
}
use bv_orchestrator.Common.{
  ◌==◌, nat_eq, string_eq, if◌then◌else◌, to_lower, show_nat, String, ◌≡◌, refl, true, Option, none,
  some, [], ◌∷◌,
}

upload : Unit {0}
unfolding ends_with upload_error upload_each submit_upload to_lower show_nat
upload = tt

abbrev three_files : UploadPage
three_files = record {
  packages = [];
  upload_open = true;
  files = "a.bvpackage" ∷ "B.BVPACKAGE" ∷ "c.bvpackage" ∷ [];
  said = [];
}

abbrev answer : String → Option String
answer f = if f == "B.BVPACKAGE" then some "exists" else none

refused_test :
    ((submit_upload answer none three_files).0 ≡ "a.bvpackage" ∷ "B.BVPACKAGE" ∷ [])
    × ((submit_upload answer none three_files).1.said ≡ "Upload failed" ∷ [])
    × ((submit_upload answer none three_files).1.upload_open ≡ true)
unfolding upload
refused_test = (refl, refl, refl)

uploaded_test : (submit_upload (λ f. none) none three_files).1.said ≡ "3 packages uploaded" ∷ []
unfolding upload
uploaded_test = refl
