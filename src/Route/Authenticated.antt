-- ===== src/Route/Authenticated.antt =====
-- The router comes to rest at a page for an authenticated user (main.tsx).
use bv_orchestrator.Common.Prefix.{starts_with}
use bv_orchestrator.Targets.{
  Page, dashboard, Target, plain, guarded, redirect, unknown, target, normalize_hash,
}
use bv_orchestrator.Route.{
  authenticated, View, blank, page, Router, render, render_target, leave_login, effect, round,
  settle, on_hash_change, on_login_screen, home,
}
use bv_orchestrator.Route.Redirects.{IsAutomation, target-IsAutomation}
use mathlib.Core.Path.{subst}
use bv_orchestrator.Route.Rounds.{
  Rested, Shows, arrive, navigate_lem, settle-move, Shows-settle_here,
}
use bv_orchestrator.Common.{
  ◌==◌, nat_eq, string_eq, Bool-cases, ℕ, suc, String, ◌≡◌, refl, sym, ◌∙◌, ◌≢◌, inl, inr, false,
  Option, eq_iff, arith,
}

target-dashboard : target "#/dashboard" ≡ guarded dashboard
unfolding target starts_with
target-dashboard = refl

dashboard-ne-unknown : (route : String) → target route ≡ unknown → route ≢ "#/dashboard"
dashboard-ne-unknown route h e = cc target-dashboard

effect_off_login :
    (t : Target) (r : Router)
    → r.status ≡ authenticated
    → on_login_screen r.route ≡ false
    → effect (render_target t r).1 ≡ (render_target t r).1
unfolding effect leave_login render_target
effect_off_login (plain p) r s h = ground arith
effect_off_login (guarded p) r s h = ground arith
effect_off_login (redirect to) r s h = ground arith
effect_off_login unknown r s h = ground (arith, navigate_lem (home r.status) r)

-- An authenticated user stays where the render left him, except on the login screen.
round_authenticated :
    (r : Router)
    → r.status ≡ authenticated
    → on_login_screen r.route ≡ false
    → (r.route == "#/") ≡ false
    → round r ≡ render_target (target r.route) r
unfolding round render
round_authenticated r s h k = ground (arith, effect_off_login (target r.route) r)

round_at_root_authenticated :
    (r : Router)
    → r.status ≡ authenticated
    → r.route ≡ "#/"
    → round r ≡ (blank, record r { hash = "#/dashboard"; return_to = r.return_to })
unfolding round render effect leave_login
round_at_root_authenticated r s e =
    let k : on_login_screen r.route ≡ false = rw e (unfold starts_with in refl) in
    ground (arith, navigate_lem "#/dashboard" r, eq_iff r.route "#/")

-- The routes that the router navigates to show their page at once.
abbrev Stays : String → Type 0
Stays to =
    (normalize_hash to ≡ to)
    × (on_login_screen to ≡ false)
    × ((to == "#/") ≡ false)
    × ((p : Page) × (target to ≡ guarded p))

pub dashboard-Stays : Stays "#/dashboard"
unfolding normalize_hash target starts_with
dashboard-Stays = (refl, refl, refl, (dashboard, refl))

processes-Stays : Stays "#/automations/processes"
unfolding normalize_hash target starts_with
processes-Stays = (refl, refl, refl, (_, refl))

jobs-Stays : Stays "#/automations/jobs"
unfolding normalize_hash target starts_with
jobs-Stays = (refl, refl, refl, (_, refl))

triggers-Stays : Stays "#/automations/triggers"
unfolding normalize_hash target starts_with
triggers-Stays = (refl, refl, refl, (_, refl))

logs-Stays : Stays "#/automations/logs"
unfolding normalize_hash target starts_with
logs-Stays = (refl, refl, refl, (_, refl))

IsAutomation-Stays : (to : String) → IsAutomation to → Stays to
IsAutomation-Stays to (inl e) = subst Stays (sym e) processes-Stays
IsAutomation-Stays to (inr (inl e)) = subst Stays (sym e) jobs-Stays
IsAutomation-Stays to (inr (inr (inl e))) = subst Stays (sym e) triggers-Stays
IsAutomation-Stays to (inr (inr (inr e))) = subst Stays (sym e) logs-Stays

round_at_Stays :
    (r : Router) (p : Page)
    → r.status ≡ authenticated
    → on_login_screen r.route ≡ false
    → (r.route == "#/") ≡ false
    → target r.route ≡ guarded p
    → round r ≡ (page p, r)
unfolding render_target
round_at_Stays r p s off root shown = round_authenticated r s off root ∙ rw shown (rw s)

arrive_at_Stays :
    (n : ℕ) (r : Router) (to : String) (v : View) (return_to : Option String)
    → Stays to
    → r.status ≡ authenticated
    → round r ≡ (v, record r { hash = to; return_to = return_to })
    → r.route ≢ to
    → Shows (settle (suc (suc n)) r)
unfolding on_hash_change
arrive_at_Stays n r to v return_to (norm, off, root, (p, shown)) s e h =
    let next : Router = record {
      status = r.status;
      route = to;
      hash = to;
      return_to = return_to;
    } in
    let same : arrive r to return_to ≡ next = rw norm in
    rw (settle-move (suc n) r v _ e (λ k. h (sym k ∙ norm)))
      (rw same (Shows-settle_here n next p next (round_at_Stays next p s off root shown) norm))

-- What each kind of target comes to for an authenticated user who is not at the login screen.
settle_authenticated :
    (n : ℕ) (r : Router) (t : Target)
    → Rested r
    → r.status ≡ authenticated
    → target r.route ≡ t
    → round r ≡ render_target t r
    → Shows (settle (suc (suc n)) r)
unfolding render_target on_hash_change
settle_authenticated n r (plain p) rest s k e = Shows-settle_here (suc n) r p r e rest
settle_authenticated n r (guarded p) rest s k e =
    Shows-settle_here (suc n) r p r (ground arith) rest
settle_authenticated n r (redirect to) rest s k e =
    let stays : Stays to = IsAutomation-Stays to (target-IsAutomation r.route to k) in
    arrive_at_Stays n r to blank r.return_to stays s e (λ same. cc (stays.3.1))
settle_authenticated n r unknown rest s k e =
    arrive_at_Stays n r "#/dashboard" blank r.return_to dashboard-Stays s
      (ground (arith, navigate_lem (home r.status) r)) (dashboard-ne-unknown r.route k)

pub off_login :
    (n : ℕ) (r : Router)
    → Rested r
    → r.status ≡ authenticated
    → on_login_screen r.route ≡ false
    → Shows (settle (suc (suc n)) r)
off_login n r rest s h = elim (Bool-cases (r.route == "#/")) [
  | inl root ↦
      let e : r.route ≡ "#/" = (eq_iff r.route "#/").0 root in
      arrive_at_Stays n r "#/dashboard" blank _ dashboard-Stays s
        (round_at_root_authenticated r s e) (λ k. ground (arith, e, k, eq_iff "#/" "#/dashboard"))
  | inr other ↦
      settle_authenticated n r (target r.route) rest s refl (round_authenticated r s h other)
]
