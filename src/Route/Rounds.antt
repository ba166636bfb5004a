-- ===== src/Route/Rounds.antt =====
-- One round of the router, and the rounds that follow from its own navigation (main.tsx).
use bv_orchestrator.Common.Prefix.{starts_with}
use bv_orchestrator.Targets.{Page, normalize_hash, is_protected_route}
use bv_orchestrator.Route.{
  unauthenticated, View, blank, page, Router, navigate, remember_return_to, render, leave_login,
  effect, round, settle, on_hash_change,
}
use bv_orchestrator.Common.{
  ◌==◌, nat_eq, string_eq, if◌then◌else◌, or_default, Bool-cases, is_empty, ℕ, suc, String, ◌≡◌,
  ◌≢◌, inl, inr, true, not, ◌&&◌, Option, some, eq_iff, arith,
}

-- The state is that of a finished `hashchange`: the route is the hash's.
abbrev pub Rested : Router → Type 0
Rested r = normalize_hash r.hash ≡ r.route

abbrev pub Shows : Option (View × Router) → Type 0
Shows o = (p : Page) × (r : Router) × (o ≡ some (page p, r))

abbrev pub arrive : Router → String → Option String → Router
arrive r to return_to = record {
  status = r.status;
  route = normalize_hash to;
  hash = to;
  return_to = return_to;
}

-- `navigate` sets the hash, whether or not it had that value.
pub navigate_lem : (to : String) (r : Router) → navigate to r ≡ record r { hash = to }
unfolding navigate
navigate_lem to r = ground (arith, eq_iff r.hash to)

-- A round that navigates to another route.
pub settle-move :
    (n : ℕ) (r : Router) (v : View) (r' : Router)
    → round r ≡ (v, r')
    → (on_hash_change r').route ≢ r.route
    → settle (suc n) r ≡ settle n (on_hash_change r')
unfolding settle
settle-move n r v r' e h = ground (arith, eq_iff (on_hash_change r').route r.route)

-- A round that shows a page is the last one, or the page after it is.
pub Shows-settle :
    (n : ℕ) (r : Router) (p : Page) (r' : Router)
    → round r ≡ (page p, r')
    → Shows (settle n (on_hash_change r'))
    → Shows (settle (suc n) r)
unfolding settle
Shows-settle n r p r' e (q, s, h) = elim (Bool-cases ((on_hash_change r').route == r.route)) [
  | inl same ↦ (p, r', ground arith)
  | inr other ↦ (q, s, ground arith)
]

pub Shows-settle_here :
    (n : ℕ) (r : Router) (p : Page) (r' : Router)
    → round r ≡ (page p, r')
    → (on_hash_change r').route ≡ r.route
    → Shows (settle (suc n) r)
unfolding settle
Shows-settle_here n r p r' e h = (p, r', ground (arith, eq_iff (on_hash_change r').route r.route))

-- What the two remembering calls of a redirect to the login page leave behind.
abbrev pub remembered : String → Option String → Option String
remembered route old =
    if not (is_empty route) && not (starts_with route "#/login") && is_empty (or_default old "")
    then some route
    else old

remember_return_to_lem :
    (route : String) (r : Router)
    → remember_return_to route r ≡ record r { return_to = remembered route r.return_to }
unfolding remember_return_to
remember_return_to_lem route r = ground arith

remembered_idem :
    (route : String) (old : Option String)
    → remembered route (remembered route old) ≡ remembered route old
remembered_idem route old = ground arith

-- An unauthenticated user at a protected route is sent to the login page, and the route is kept.
pub round_at_protected :
    (r : Router)
    → r.status ≡ unauthenticated
    → is_protected_route r.route ≡ true
    → round r ≡ (blank, record r { hash = "#/login"; return_to = remembered r.route r.return_to })
unfolding round render effect leave_login
round_at_protected r s h = ground (
  arith,
  navigate_lem "#/login" (remember_return_to r.route r),
  remember_return_to_lem r.route r,
  navigate_lem "#/login" (
      remember_return_to r.route
        (record r { hash = "#/login"; return_to = remembered r.route r.return_to })),
  remember_return_to_lem r.route
      (record r { hash = "#/login"; return_to = remembered r.route r.return_to }),
  remembered_idem r.route r.return_to,
)
