-- ===== src/Route/Redirects.antt =====
-- Where the redirects of `target` lead, and what the login screens show (main.tsx).
use bv_orchestrator.Common.Prefix.{starts_with, starts_with_trans}
use bv_orchestrator.Targets.{
  login, plain, redirect, automations_target, jobs_target, named_target, main_target, target,
}
use bv_orchestrator.Route.{on_login_screen}
use bv_orchestrator.Route.Prefixes.{ne_of_starts_with}
use bv_orchestrator.Common.{
  ◌==◌, nat_eq, string_eq, Bool-cases, String, ◌≡◌, refl, ◌≢◌, ◌⊎◌, inl, inr, true, eq_iff, arith,
}

-- The routes of the automations, to which the old routes are redirected.
abbrev pub IsAutomation : String → Type 0
IsAutomation to =
    (to ≡ "#/automations/processes")
    ⊎ (to ≡ "#/automations/jobs")
    ⊎ (to ≡ "#/automations/triggers")
    ⊎ (to ≡ "#/automations/logs")

automations_target-ne-redirect : (route to : String) → automations_target route ≢ redirect to
unfolding automations_target
automations_target-ne-redirect route to = ground arith

jobs_target-ne-redirect : (route to : String) → jobs_target route ≢ redirect to
unfolding jobs_target
jobs_target-ne-redirect route to = ground (arith, automations_target-ne-redirect route to)

named_target-ne-redirect : (route to : String) → named_target route ≢ redirect to
unfolding named_target
named_target-ne-redirect route to = ground (arith, jobs_target-ne-redirect route to)

main_target-IsAutomation : (route to : String) → main_target route ≡ redirect to → IsAutomation to
unfolding main_target
main_target-IsAutomation route to e = ground (arith, named_target-ne-redirect route to)

pub target-IsAutomation : (route to : String) → target route ≡ redirect to → IsAutomation to
unfolding target
target-IsAutomation route to e = ground (arith, main_target-IsAutomation route to)

-- The login screen shows the login page.
pub target-on_login_screen :
    (route : String) → on_login_screen route ≡ true → target route ≡ plain login
unfolding target
target-on_login_screen route h = elim (Bool-cases (route == "#/login")) [
  | inl same ↦ let e : route ≡ "#/login" = (eq_iff _ _).0 same in rw e (unfold starts_with in refl)
  | inr other ↦
      let query : starts_with route "#/login?" ≡ true = ground arith in
      let base : starts_with route "#/login" ≡ true =
        starts_with_trans route "#/login" "#/login?" (unfold starts_with in refl) query in
      rw (
        ne_of_starts_with route "#/login?" "#/login-success" (unfold starts_with in refl) query,
        base,
      )
]
