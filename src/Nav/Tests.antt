-- ===== src/Nav/Tests.antt =====
-- The navigation bar at concrete hashes (AppLayout.tsx).
use bv_orchestrator.Common.Prefix.{starts_with}
use bv_orchestrator.Nav.{nav_items, is_active, NavItem}
use bv_orchestrator.Nav.Exclusive.{one_active}
use bv_orchestrator.Common.{nat_eq, string_eq, length, keep, ◌≤◌, ◌≡◌, refl, [], ◌∷◌, map}

one_active_example : length (keep (is_active "#/jobs/3") nav_items) ≤ 1
one_active_example = one_active "#/jobs/3"

active_test :
    map (λ (it : NavItem). it.label) (keep (is_active "#/jobs/3") nav_items) ≡ "Automations" ∷ []
unfolding is_active starts_with
active_test = refl
