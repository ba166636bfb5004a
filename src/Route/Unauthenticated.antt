-- ===== src/Route/Unauthenticated.antt =====
-- The router comes to rest at a page for a user who is not authenticated (main.tsx).
use bv_orchestrator.Common.Prefix.{starts_with}
use bv_orchestrator.Targets.{
  login, Target, plain, guarded, redirect, unknown, target, normalize_hash, is_protected_route,
  is_public_route,
}
use bv_orchestrator.Route.{
  AuthStatus, unauthenticated, View, blank, page, Router, render, render_target, leave_login,
  effect, round, settle, on_hash_change, home,
}
use bv_orchestrator.Route.Protected.{target-is_protected}
use bv_orchestrator.Route.Rounds.{
  Rested, Shows, navigate_lem, settle-move, Shows-settle_here, round_at_protected,
}
use bv_orchestrator.Common.{
  ◌==◌, nat_eq, string_eq, Bool-cases, ℕ, suc, String, ◌≡◌, refl, sym, ◌≢◌, inl, inr, true, false,
  Option, eq_iff, arith,
}

abbrev at_login : AuthStatus → Option String → Router
at_login status return_to = record {
  status = status;
  route = "#/login";
  hash = "#/login";
  return_to = return_to;
}

round-at_login :
    (return_to : Option String)
    → round (at_login unauthenticated return_to) ≡ (page login, at_login unauthenticated return_to)
unfolding round render effect leave_login is_protected_route is_public_route target starts_with
    render_target
round-at_login return_to = refl

settle-at_login :
    (n : ℕ) (return_to : Option String)
    → Shows (settle (suc n) (at_login unauthenticated return_to))
unfolding on_hash_change normalize_hash
settle-at_login n return_to =
    Shows-settle_here n (at_login unauthenticated return_to) login _ (round-at_login return_to) refl

-- The login page is where an unauthenticated user is sent.
arrive_at_login :
    (n : ℕ) (r : Router) (v : View) (return_to : Option String)
    → r.status ≡ unauthenticated
    → round r ≡ (v, record r { hash = "#/login"; return_to = return_to })
    → r.route ≢ "#/login"
    → Shows (settle (suc (suc n)) r)
unfolding on_hash_change normalize_hash
arrive_at_login n r v return_to s e h =
    rw (settle-move (suc n) r v _ e (λ k. h (sym k))) (rw s (settle-at_login n return_to))

is_protected_login : is_protected_route "#/login" ≡ false
unfolding is_protected_route is_public_route starts_with
is_protected_login = refl

target-login : target "#/login" ≡ plain login
unfolding target starts_with
target-login = refl

pub login-ne-protected : (route : String) → is_protected_route route ≡ true → route ≢ "#/login"
login-ne-protected route h e = cc is_protected_login

-- A route that nothing matches is not the login page's.
login-ne-unknown : (route : String) → target route ≡ unknown → route ≢ "#/login"
login-ne-unknown route h e = cc target-login

-- The effect leaves alone what an unauthenticated user does outside the protected routes.
effect-render_target :
    (t : Target) (r : Router)
    → r.status ≡ unauthenticated
    → is_protected_route r.route ≡ false
    → effect (render_target t r).1 ≡ (render_target t r).1
unfolding effect leave_login render_target
effect-render_target (plain p) r s h = ground arith
effect-render_target (guarded p) r s h = ground arith
effect-render_target (redirect to) r s h = ground arith
effect-render_target unknown r s h = ground (arith, navigate_lem (home r.status) r)

round_unauthenticated :
    (r : Router)
    → r.status ≡ unauthenticated
    → is_protected_route r.route ≡ false
    → (r.route == "#/") ≡ false
    → round r ≡ render_target (target r.route) r
unfolding round render
round_unauthenticated r s h k = ground (arith, effect-render_target (target r.route) r)

-- What each kind of target comes to for an unauthenticated user.
settle_unauthenticated :
    (n : ℕ) (r : Router) (t : Target)
    → Rested r
    → r.status ≡ unauthenticated
    → is_protected_route r.route ≡ false
    → target r.route ≡ t
    → round r ≡ render_target t r
    → Shows (settle (suc (suc n)) r)
unfolding render_target on_hash_change
settle_unauthenticated n r (plain p) rest s h k e = Shows-settle_here (suc n) r p r e rest
settle_unauthenticated n r (guarded p) rest s h k e =
    absurd (cc (target-is_protected r.route (rw k)))
settle_unauthenticated n r (redirect to) rest s h k e =
    absurd (cc (target-is_protected r.route (rw k)))
settle_unauthenticated n r unknown rest s h k e =
    arrive_at_login n r blank r.return_to s (ground (arith, navigate_lem (home r.status) r))
      (login-ne-unknown r.route k)

round_at_root :
    (r : Router)
    → r.status ≡ unauthenticated
    → r.route ≡ "#/"
    → round r ≡ (blank, record r { hash = "#/login"; return_to = r.return_to })
unfolding round render effect leave_login
round_at_root r s e =
    let k : is_protected_route r.route ≡ false =
      rw e (unfold is_protected_route is_public_route in refl) in
    ground (arith, navigate_lem "#/login" r, eq_iff r.route "#/")

pub Shows-unauthenticated :
    (n : ℕ) (r : Router) → Rested r → r.status ≡ unauthenticated → Shows (settle (suc (suc n)) r)
Shows-unauthenticated n r rest s = elim (Bool-cases (is_protected_route r.route)) [
  | inl h ↦ arrive_at_login n r blank _ s (round_at_protected r s h) (login-ne-protected r.route h)
  | inr h ↦ elim (Bool-cases (r.route == "#/")) [
    | inl root ↦
        let e : r.route ≡ "#/" = (eq_iff r.route "#/").0 root in
        arrive_at_login n r blank _ s (round_at_root r s e)
          (λ k. ground (arith, e, k, eq_iff "#/" "#/login"))
    | inr other ↦
        settle_unauthenticated n r (target r.route) rest s h refl
          (round_unauthenticated r s h other)
  ]
]
