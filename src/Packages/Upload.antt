-- ===== src/Packages/Upload.antt =====
-- The upload of packages (PackagesPage.tsx): the window with its files, its check, and the loop that sends
-- them. A file is its name; its bytes are sent as they are.
use bv_orchestrator.Packages.{Package}
use bv_orchestrator.Common.{
  ltb, ◌==◌, nat_eq, string_eq, if◌then◌else◌, is_some, Option-cases, length, is_nil, take, any,
  ◌+++◌, is_empty, to_lower, show_nat, String, ◌≡◌, refl, ap, inl, inr, Bool, false, not, ◌||◌,
  Option, none, some, List, [], ◌∷◌,
}

pub record UploadPage : Type 0 where
  pub packages : List Package
  pub upload_open : Bool
  pub files : List String
  pub said : List String

-- `s.endsWith(t)`
unfoldable pub ends_with : String → String → Bool
ends_with String.[] t = is_empty t
ends_with (String.◌∷◌ c s) t = String.◌∷◌ c s == t || ends_with s t

-- `validate`
unfoldable pub upload_error : List String → Option String
unfolding ends_with to_lower
upload_error files =
    if is_nil files
    then some "At least one .bvpackage file is required"
    else if any (λ f. not (ends_with (to_lower f) ".bvpackage")) files
    then some "All files must be .bvpackage"
    else none

-- The loop of `handleUpload`: the files that are sent, and the error that ends it. `answer` is the server's
-- error for a file, if any.
abbrev pub sent_turn :
    Option String → String → List String × Option String → List String × Option String
sent_turn none f (sent, e) = (f ∷ sent, e)
sent_turn (some e) f rest = (f ∷ [], some e)

unfoldable pub upload_each : (String → Option String) → List String → List String × Option String
upload_each answer [] = ([], none)
upload_each answer (f ∷ fs) = sent_turn (answer f) f (upload_each answer fs)

abbrev reloaded : Option (List Package) → UploadPage → UploadPage
reloaded none v = v
reloaded (some ps) v = record v { packages = ps }

-- the end of `handleUpload`, with the answer to `load`
abbrev pub finish_upload : Option String → Option (List Package) → UploadPage → UploadPage
finish_upload (some e) after v = record v { said = "Upload failed" ∷ v.said }
finish_upload none after v = reloaded after (record v {
  upload_open = false;
  said =
      (if ltb 1 (length v.files)
        then show_nat (length v.files) +++ " packages uploaded"
        else "Package uploaded")
      ∷ v.said;
})

-- `submit` of the window with `handleUpload`: the files that are sent, and the page
unfoldable pub submit_upload :
    (String → Option String) → Option (List Package) → UploadPage → List String × UploadPage
unfolding upload_error upload_each show_nat
submit_upload answer after v = elim (upload_error v.files) [
  | some e ↦ ([], record v { said = "Upload blocked" ∷ v.said })
  | none ↦ (let (sent, error) = upload_each answer v.files in (sent, finish_upload error after v))
]

-- The files that are sent are the first ones of those that are chosen, in their order; there is an error exactly
-- when the server refuses one of the chosen files.
upload_each_lem :
    (answer : String → Option String) (files : List String)
    → ((upload_each answer files).0 ≡ take (length (upload_each answer files).0) files)
      × (is_some (upload_each answer files).1 ≡ any (λ f. is_some (answer f)) files)
unfolding upload_each
upload_each_lem answer [] = (refl, refl)
upload_each_lem answer (f ∷ fs) =
    let (first, error) = upload_each_lem answer fs in
    elim (Option-cases (answer f)) [
      | inl good ↦ rw (good) (ap (λ xs. f ∷ xs) first, error)
      | inr (e, bad) ↦ rw (bad) (refl, refl)
    ]
