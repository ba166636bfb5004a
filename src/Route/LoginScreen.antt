-- ===== src/Route/LoginScreen.antt =====
-- The login screen of an authenticated user leads to a page (main.tsx).
use bv_orchestrator.Route.Authenticated.{dashboard-Stays, off_login}
use bv_orchestrator.Common.Prefix.{starts_with}
use bv_orchestrator.Targets.{login, normalize_hash, is_protected_route}
use bv_orchestrator.Route.{
  authenticated, page, Router, render, render_target, leave_login, round, settle, on_hash_change,
  on_login_screen,
}
use bv_orchestrator.Route.Redirects.{target-on_login_screen}
use bv_orchestrator.Route.Rounds.{Rested, Shows, navigate_lem, Shows-settle}
use bv_orchestrator.Common.{
  ◌==◌, nat_eq, string_eq, if◌then◌else◌, or_default, Bool-cases, is_empty, ℕ, suc, String, ◌≡◌,
  refl, ap, inl, inr, Bool, true, false, not, ◌&&◌, Option, none, eq_iff, arith,
}

root_off_login : on_login_screen "#/" ≡ false
unfolding starts_with
root_off_login = refl

login_screen-ne-root : (route : String) → on_login_screen route ≡ true → (route == "#/") ≡ false
login_screen-ne-root route h = elim (Bool-cases (route == "#/")) [
  | inl root ↦
      let e : route ≡ "#/" = (eq_iff route "#/").0 root in
      absurd (cc (root_off_login, ap on_login_screen e))
  | inr other ↦ other
]

-- On the login screen the login page is shown, and the effect decides where to go.
pub round-on_login_screen :
    (r : Router)
    → r.status ≡ authenticated
    → on_login_screen r.route ≡ true
    → round r ≡ (page login, leave_login r)
unfolding round render render_target
round-on_login_screen r s h =
    ground (arith, target-on_login_screen r.route h, login_screen-ne-root r.route h)

-- The test of a stored route.
abbrev pub is_return : Option String → Bool
is_return o = not (is_empty (or_default o "")) && is_protected_route (or_default o "")

pub leave_login_lem :
    (r : Router)
    → r.status ≡ authenticated
    → on_login_screen r.route ≡ true
    → leave_login r ≡ (
        if is_return r.return_to
        then record r { hash = or_default r.return_to ""; return_to = none }
        else record r { hash = "#/dashboard" })
unfolding leave_login
leave_login_lem r s h = ground (
  arith,
  navigate_lem "#/dashboard" r,
  navigate_lem (or_default r.return_to "") (record r { return_to = none }),
)

at_dashboard :
    (n : ℕ) (r : Router)
    → r.status ≡ authenticated
    → Shows (settle (suc (suc n)) (on_hash_change (record r { hash = "#/dashboard" })))
unfolding on_hash_change
at_dashboard n r s =
    let (norm, off, _, _) = dashboard-Stays in
    off_login n (record r { hash = "#/dashboard"; route = normalize_hash "#/dashboard" }) refl s
      (rw norm off)

-- With nothing stored the login screen leads to the dashboard.
on_login_to_dashboard :
    (n : ℕ) (r : Router)
    → r.status ≡ authenticated
    → on_login_screen r.route ≡ true
    → is_return r.return_to ≡ false
    → Shows (settle (suc (suc (suc n))) r)
on_login_to_dashboard n r s h none_stored =
    Shows-settle (suc (suc n)) r login (leave_login r) (round-on_login_screen r s h)
      (rw (leave_login_lem r s h, none_stored) (at_dashboard n r s))

any_without_return :
    (n : ℕ) (r : Router)
    → Rested r
    → r.status ≡ authenticated
    → is_return r.return_to ≡ false
    → Shows (settle (suc (suc (suc n))) r)
any_without_return n r rest s k = elim (Bool-cases (on_login_screen r.route)) [
  | inl on ↦ on_login_to_dashboard n r s on k
  | inr off ↦ off_login (suc n) r rest s off
]

pub Shows-authenticated :
    (n : ℕ) (r : Router)
    → Rested r
    → r.status ≡ authenticated
    → Shows (settle (suc (suc (suc (suc n)))) r)
unfolding on_hash_change
Shows-authenticated n r rest s = elim (Bool-cases (on_login_screen r.route)) [
  | inr off ↦ off_login (suc (suc n)) r rest s off
  | inl on ↦ elim (Bool-cases (is_return r.return_to)) [
    | inr k ↦ on_login_to_dashboard (suc n) r s on k
    | inl k ↦
        Shows-settle (suc (suc (suc n))) r login (leave_login r) (round-on_login_screen r s on) (
          rw (leave_login_lem r s on, k)
            (any_without_return n
              (record r {
                hash = or_default r.return_to "";
                return_to = none;
                route = normalize_hash (or_default r.return_to "");
              })
              refl s refl))
  ]
]
