-- ===== src/Login/Race.antt =====
-- Where a login leads (Login.tsx), with the router (main.tsx) and the page of the SDK (SdkAuthPage.tsx).
use bv_orchestrator.Login.{Visit, router, Form, accepted, submit_finish, destination}
use bv_orchestrator.Json.{Json}
use bv_orchestrator.Targets.{normalize_hash, is_protected_route, is_public_route}
use bv_orchestrator.Route.{effect, leave_login, on_hash_change, navigate}
use bv_orchestrator.Common.Prefix.{starts_with}
use bv_orchestrator.Common.{
  ◌==◌, nat_eq, string_eq, Bool-cases, is_empty, trim, String, ◌≡◌, refl, ap, inl, inr, true, false,
  Option, some, eq_iff, arith,
}

-- the screen after a login that succeeds
abbrev pub after_login : String → Option Json → Visit → Form → Visit
after_login token me w form = (submit_finish (accepted token me) w form).0

-- what is remembered for the way back is a hash, and none of the login's
remembered_lem :
    (r : String)
    → is_protected_route r ≡ true
    → (is_empty r ≡ false) × (starts_with r "#/login" ≡ false)
unfolding is_protected_route is_public_route starts_with
remembered_lem String.[] h = cc
remembered_lem (String.◌∷◌ c s) h = (refl, ground arith)

destination_of_protected : (r : String) → is_protected_route r ≡ true → destination (some r) ≡ r
destination_of_protected r h =
    let (some_hash, no_login) = remembered_lem r h in rw (some_hash, no_login)

-- After a login that succeeds, with a protected route remembered that normalizeHash leaves as it is: the router, still
-- at the login screen, may see the change of the hash or the new session first; in the first case it goes to the
-- route that was remembered, in the second to the dashboard.
pub login-race :
    (token : String) (me : Option Json) (w : Visit) (form : Form) (r : String)
    → w.return_to ≡ some r
    → is_protected_route r ≡ true
    → normalize_hash r ≡ r
    → ((on_hash_change (router "#/login" (after_login token me w form))).route ≡ r)
      × ((on_hash_change (effect (router "#/login" (after_login token me w form)))).route
          ≡ "#/dashboard")
unfolding submit_finish on_hash_change effect leave_login normalize_hash trim navigate
login-race token me w form r remembered protected normal = (
  rw (remembered, destination_of_protected r protected) normal,
  elim (Bool-cases (destination w.return_to == "#/dashboard")) [
    | inl there ↦
        rw (there) (ap normalize_hash ((eq_iff (destination w.return_to) "#/dashboard").0 there))
    | inr elsewhere ↦ rw (elsewhere) refl
  ],
)
