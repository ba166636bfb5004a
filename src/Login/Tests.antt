-- ===== src/Login/Tests.antt =====
-- The login, the page of the SDK and the pages with a token on concrete visits (Login.tsx, SdkAuthPage.tsx,
-- ResetPasswordPage.tsx).
use bv_orchestrator.Session.{Session, initial}
use bv_orchestrator.Storage.{text, get_item}
use bv_orchestrator.Common.Prefix.{starts_with}
use bv_orchestrator.Targets.{is_protected_route, is_public_route, normalize_hash}
use bv_orchestrator.Login.{Visit, router, Form}
use bv_orchestrator.Login.Sdk.{opened, start, answered, confirm_finish, failure}
use bv_orchestrator.Login.Race.{after_login, login-race}
use bv_orchestrator.Route.{effect, on_hash_change}
use bv_orchestrator.Login.Once.{SdkEvent, effect_run, replied, confirmations, confirms_once}
use bv_orchestrator.Login.Links.{link}
use bv_orchestrator.Common.{
  ◌==◌, nat_eq, string_eq, if◌then◌else◌, trim, ◌≤◌, String, ◌≡◌, refl, true, Option, none, some,
  List, [], ◌∷◌,
}

page : Unit {0}
unfolding start confirm_finish confirmations initial get_item starts_with is_protected_route
    is_public_route normalize_hash trim
page = tt

abbrev blank : Form
blank = record { username = "ann"; password = "pw"; loading = true; message = none }

abbrev waiting_visit : Visit
waiting_visit = record { session = initial [] "#/login"; return_to = some "#/assets" }

login-race_example :
    ((on_hash_change (router "#/login" (after_login "t1" none waiting_visit blank))).route
      ≡ "#/assets")
    × ((on_hash_change
          (effect (router "#/login" (after_login "t1" none waiting_visit blank)))).route
        ≡ "#/dashboard")
unfolding page
login-race_example = login-race "t1" none waiting_visit blank "#/assets" refl refl refl

abbrev session_id_of : String → Option String
session_id_of hash = if hash == "#/sdk-auth?session_id=s1" then some "s1" else none

abbrev at_sdk : Session
at_sdk = initial [] "#/sdk-auth?session_id=s1"

abbrev with_token : Visit
with_token = record {
  session = initial (("token", text "t1") ∷ []) "#/sdk-auth?session_id=s1";
  return_to = none;
}

abbrev twice : List SdkEvent
twice = effect_run ∷ replied (answered 500 "" none) ∷ effect_run ∷ []

once_test : confirmations session_id_of twice with_token opened ≡ 1
unfolding page
once_test = refl

failure_test : (confirm_finish (answered 500 "" none) with_token opened).1.status ≡ failure
unfolding page
failure_test = refl

confirms_once_example : confirmations session_id_of twice with_token opened ≤ 1
confirms_once_example = confirms_once session_id_of twice with_token

link_test : link "reset-password" "abc-1" ≡ "#/reset-password/abc-1"
link_test = refl
