-- ===== src/Assets/Tests.antt =====
-- Forms of assets (AssetsPage.tsx).
use bv_orchestrator.Assets.{
  int, bool, credential, FormValues, alerted, refused, saved, submit, normalize_payload, is_whole,
}
use bv_orchestrator.Assets.Submit.{submit_iff}
use bv_orchestrator.Json.{Json, Props, obj, end, prop, str, bool}
use bv_orchestrator.Session.{persist_auth}
use bv_orchestrator.Assets.Page.{grants}
use bv_orchestrator.Assets.Login.{grants_after_login}
use bv_orchestrator.Common.{
  nat_eq, string_eq, is_empty, trim, ◌≡◌, refl, ◌↔◌, true, false, none, some, [],
}

abbrev limit : FormValues
limit = record {
  name = "limit";
  type = int;
  value = " -12 ";
  description = some "";
  cred_user = "";
  cred_pass = "";
}

submit_tests :
    (submit limit ≡ saved limit)
    × (submit (record limit { value = "1.5" }) ≡ refused "Value must be a whole number")
    × (submit (record limit { type = credential }) ≡ alerted "Username is required")
    × ((normalize_payload (record limit { type = bool })).value ≡ some "false")
unfolding submit normalize_payload
submit_tests = (refl, refl, refl, refl)

submit_iff_example : (submit limit ≡ saved limit) ↔ (
    (is_empty (trim "limit") ≡ false)
    × ((is_empty (trim " -12 ") ≡ false) × (is_whole (trim " -12 ") ≡ true)))
submit_iff_example = submit_iff limit

-- the answer of the server for a user who may create assets, and nothing else
abbrev perms : Props
perms = prop "assets:create" (bool true) end

abbrev user : Json
user = obj (prop "username" (str "ann") end)

abbrev me : Json
me = obj (prop "user" user (prop "permissions" (obj (prop "flat" (obj perms) end)) end))

grants_after_login_example :
    grants (λ s. none) (persist_auth "t1" (some me) [])
    ≡ (none, record { can_create = true; can_edit = false; can_delete = false })
grants_after_login_example = grants_after_login (λ s. none) "t1" me user perms [] refl refl refl
