-- ===== src/Route/Laws.antt =====
-- What the router promises (main.tsx): nothing private is shown before login, its redirects end,
-- and a login leads back to the route that was asked for.
use bv_orchestrator.Common.Prefix.{starts_with}
use bv_orchestrator.Targets.{
  Page, login_success, login, sdk_auth, logged_out, forgot_password, reset_password, accept_invite,
  Target, plain, guarded, redirect, unknown, automations_target, jobs_target, named_target,
  main_target, target, normalize_hash, is_protected_route, is_public_route,
}
use bv_orchestrator.Route.{
  AuthStatus, authenticated, unauthenticated, loading, page, Router, render, render_target,
  leave_login, round, settle, on_hash_change, on_login_screen, is_authenticated,
}
use bv_orchestrator.Route.Rounds.{Rested, Shows, settle-move, remembered, round_at_protected}
use bv_orchestrator.Route.Unauthenticated.{Shows-unauthenticated, login-ne-protected}
use bv_orchestrator.Route.LoginScreen.{Shows-authenticated, round-on_login_screen, leave_login_lem}
use bv_orchestrator.Common.{
  nat_eq, string_eq, or_default, is_empty, ℕ, suc, String, ◌≡◌, refl, sym, ap, ◌∙◌, ◌≢◌, Bool, true,
  false, Option, none, some, arith,
}

-- The pages that anyone may see.
abbrev pub is_open : Page → Bool
is_open login_success = true
is_open login = true
is_open sdk_auth = true
is_open logged_out = true
is_open forgot_password = true
is_open reset_password = true
is_open accept_invite = true
is_open _ = false

automations_target-ne-plain : (route : String) (p : Page) → automations_target route ≢ plain p
unfolding automations_target
automations_target-ne-plain route p = ground arith

jobs_target-ne-plain : (route : String) (p : Page) → jobs_target route ≢ plain p
unfolding jobs_target
jobs_target-ne-plain route p = ground (arith, automations_target-ne-plain route p)

named_target-ne-plain : (route : String) (p : Page) → named_target route ≢ plain p
unfolding named_target
named_target-ne-plain route p = ground (arith, jobs_target-ne-plain route p)

main_target-ne-plain : (route : String) (p : Page) → main_target route ≢ plain p
unfolding main_target
main_target-ne-plain route p = ground (arith, named_target-ne-plain route p)

target-is_open : (route : String) (p : Page) → target route ≡ plain p → is_open p ≡ true
unfolding target
target-is_open route p e = ground (arith, main_target-ne-plain route p)

render_target-is_open :
    (t : Target) (r : Router) (p : Page)
    → is_authenticated r.status ≡ false
    → (render_target t r).0 ≡ page p
    → t ≡ plain p
unfolding render_target
render_target-is_open (plain q) r p s e = ground arith
render_target-is_open (guarded q) r p s e = ground arith
render_target-is_open (redirect to) r p s e = cc
render_target-is_open unknown r p s e = cc

-- Whoever is not authenticated is shown one of the seven open pages, if a page at all, and never a
-- page at a protected route.
pub render-is_open :
    (r : Router) (p : Page)
    → r.status ≢ authenticated
    → (render r).0 ≡ page p
    → (is_open p ≡ true) × (is_protected_route r.route ≡ false)
unfolding render
render-is_open r p s e =
    let off : is_authenticated r.status ≡ false = ground arith in
    (
      ground (arith, render_target-is_open (target r.route) r p off, target-is_open r.route p),
      ground arith,
    )

Shows-settled :
    (n : ℕ) (r : Router) (status : AuthStatus)
    → r.status ≡ status
    → status ≢ loading
    → Rested r
    → Shows (settle (suc (suc (suc (suc n)))) r)
Shows-settled n r loading s h rest = absurd (h refl)
Shows-settled n r authenticated s h rest = Shows-authenticated n r rest s
Shows-settled n r unauthenticated s h rest = Shows-unauthenticated (suc (suc n)) r rest s

-- Once the session is known, the router's navigation ends within four rounds, at a page and not at
-- the empty screen, whatever the hash and the remembered route; more fuel changes nothing of that.
pub settle-Shows :
    (n : ℕ) (r : Router)
    → Rested r
    → r.status ≢ loading
    → Shows (settle (suc (suc (suc (suc n)))) r)
settle-Shows n r rest h = Shows-settled n r r.status refl h rest

is_protected_empty : is_protected_route "" ≡ false
unfolding is_protected_route is_public_route starts_with
is_protected_empty = refl

is_empty-ne-protected : (route : String) → is_protected_route route ≡ true → is_empty route ≡ false
is_empty-ne-protected String.[] h = absurd (cc is_protected_empty)
is_empty-ne-protected (String.◌∷◌ c s) h = refl

starts_with-ne-protected :
    (route : String) → is_protected_route route ≡ true → starts_with route "#/login" ≡ false
unfolding is_protected_route is_public_route
starts_with-ne-protected route h = ground arith

remembered_fresh :
    (route : String) (old : Option String)
    → is_protected_route route ≡ true
    → is_empty (or_default old "") ≡ true
    → remembered route old ≡ some route
remembered_fresh route old h k =
    rw (is_empty-ne-protected route h, starts_with-ne-protected route h, k)

login_on_screen : on_login_screen "#/login" ≡ true
login_on_screen = refl

normalize-login : normalize_hash "#/login" ≡ "#/login"
unfolding normalize_hash
normalize-login = refl

-- From the login screen an authenticated user goes on to the remembered route.
settle_at_login_screen :
    (n : ℕ) (route : String)
    → is_protected_route route ≡ true
    → normalize_hash route ≡ route
    → settle (suc n) (record {
      status = authenticated;
      route = "#/login";
      hash = "#/login";
      return_to = some route;
    })
      ≡ settle n (record { status = authenticated; route = route; hash = route; return_to = none })
unfolding on_hash_change
settle_at_login_screen n route h norm =
    let r : Router = record {
      status = authenticated;
      route = "#/login";
      hash = "#/login";
      return_to = some route;
    } in
    let left : leave_login r ≡ record r { hash = route; return_to = none } =
      leave_login_lem r refl login_on_screen ∙ rw (is_empty-ne-protected route h, h) in
    let e : round r ≡ (page login, record r { hash = route; return_to = none }) =
      round-on_login_screen r refl login_on_screen ∙ ap (λ (q : Router). (page login, q)) left in
    settle-move n r (page login) _ e (λ k. login-ne-protected route h (sym norm ∙ k)) ∙ rw norm

-- A user who asks for a protected route without a session (and with no older route remembered) is
-- sent to the login page; when the session becomes authenticated there, the router goes on as if the
-- user had asked for that route in the first place, and the remembered route is forgotten.
pub settle-after_login :
    (n : ℕ) (r : Router)
    → r.status ≡ unauthenticated
    → is_protected_route r.route ≡ true
    → normalize_hash r.route ≡ r.route
    → is_empty (or_default r.return_to "") ≡ true
    → let sent = on_hash_change (round r).1 in
      (sent.route ≡ "#/login")
      × (settle (suc n) (record sent { status = authenticated })
          ≡ settle n (record {
            status = authenticated;
            route = r.route;
            hash = r.route;
            return_to = none;
          }))
unfolding on_hash_change
settle-after_login n r s h norm fresh =
    let old : remembered r.route r.return_to ≡ some r.route =
      remembered_fresh r.route r.return_to h fresh in
    rw (round_at_protected r s h, old, normalize-login)
      (refl, settle_at_login_screen n r.route h norm)
