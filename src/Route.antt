-- ===== src/Route.antt =====
-- main.tsx: what the `Router` component does in one round (a render, then its effect) and over the rounds that its own navigation causes.
pub mod Prefixes
pub mod Protected
pub mod Redirects
pub mod Rounds
pub mod Unauthenticated
pub mod Authenticated
pub mod LoginScreen
pub mod Laws
pub mod Tests
use bv_orchestrator.Targets.{
  normalize_hash, is_protected_route, target, Page, Target, plain, guarded, redirect, unknown,
}
use bv_orchestrator.Common.Prefix.{starts_with}
use bv_orchestrator.Common.{
  ◌==◌, nat_eq, string_eq, if◌then◌else◌, or_default, is_empty, ℕ, zero, suc, String, Bool, true,
  false, not, ◌&&◌, ◌||◌, Option, none, some, [],
}

pub data AuthStatus : Type 0 where
  loading authenticated unauthenticated : AuthStatus

-- What `Router` returns: the loader, nothing, or a page.
pub data View : Type 0 where
  loader blank : View
  page : Page → View

-- `route` and `status` are the component's; `hash` is the window's; `return_to` is
-- sessionStorage's item `bv_return_to`.
pub record Router : Type 0 where
  pub status : AuthStatus
  pub route : String
  pub hash : String
  pub return_to : Option String

abbrev pub is_authenticated : AuthStatus → Bool
is_authenticated authenticated = true
is_authenticated _ = false

abbrev pub is_unauthenticated : AuthStatus → Bool
is_unauthenticated unauthenticated = true
is_unauthenticated _ = false

abbrev pub is_loading : AuthStatus → Bool
is_loading loading = true
is_loading _ = false

-- `!sessionStorage.getItem(…)`: absent or empty
pub remember_return_to : String → Router → Router
remember_return_to route r =
    if not (is_empty route)
      && not (starts_with route "#/login")
      && is_empty (or_default r.return_to "")
    then record r { return_to = some route }
    else r

unfoldable pub navigate : String → Router → Router
navigate to r = if r.hash == to then r else record r { hash = to }

abbrev pub home : AuthStatus → String
home status = if is_authenticated status then "#/dashboard" else "#/login"

pub render_target : Target → Router → View × Router
unfolding navigate
render_target (plain p) r = (page p, r)
render_target (guarded p) r = (if is_authenticated r.status then page p else blank, r)
render_target (redirect to) r = (blank, record r { hash = to })
render_target unknown r = (blank, navigate (home r.status) r)

-- The body of `Router`, with the navigation that it does while it renders.
pub render : Router → View × Router
render r =
    if is_loading r.status
    then (loader, r)
    else if is_unauthenticated r.status && is_protected_route r.route
    then (blank, navigate "#/login" (remember_return_to r.route r))
    else if r.route == "#/"
    then (blank, navigate (home r.status) r)
    else render_target (target r.route) r

abbrev pub on_login_screen : String → Bool
on_login_screen route = route == "#/login" || starts_with route "#/login?"

-- The second half of the effect: from the login screen to where the user was going.
unfoldable pub leave_login : Router → Router
leave_login r =
    if is_authenticated r.status && on_login_screen r.route
    then (if not (is_empty (or_default r.return_to ""))
          && is_protected_route (or_default r.return_to "")
        then navigate (or_default r.return_to "") (record r { return_to = none })
        else navigate "#/dashboard" r)
    else r

-- `useEffect(…, [route, status])`
unfoldable pub effect : Router → Router
unfolding leave_login
effect r =
    if is_unauthenticated r.status && is_protected_route r.route
    then leave_login (navigate "#/login" (remember_return_to r.route r))
    else leave_login r

-- `onHashChange`
unfoldable pub on_hash_change : Router → Router
on_hash_change r = record r { route = normalize_hash r.hash }

-- A render and its effect.
pub round : Router → View × Router
unfolding render effect
round r = let (view, r') = render r in (view, effect r')

-- Rounds until the route stays; `none` means that the fuel ran out.
pub settle : ℕ → Router → Option (View × Router)
settle zero r = none
settle (suc fuel) r =
    let (view, r') = round r in
    let rest = settle fuel (on_hash_change r') in
    if (on_hash_change r').route == r.route then some (view, r') else rest
