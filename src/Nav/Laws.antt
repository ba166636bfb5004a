-- ===== src/Nav/Laws.antt =====
-- What the navigation bar shows (AppLayout.tsx).
use bv_orchestrator.Json.{Json, get?, truthy?}
use bv_orchestrator.Nav.{has_permission, open_items, restricted_items, visible_items}
use bv_orchestrator.Common.{
  nat_eq, string_eq, if◌then◌else◌, Bool-cases, keep, ◌≡◌, refl, inl, inr, Option, none, ◌++◌,
}

-- Everyone sees the same eight entries first; of the other three an administrator sees all, and another
-- user those for which he has the permission to view.
visible_items_lem :
    (user : Option Json) (permissions : Json)
    → visible_items user permissions
      ≡ open_items
        ++ (if truthy? (get? "is_admin" user)
            then restricted_items
            else keep (λ it. has_permission none permissions it.perm) restricted_items)
unfolding visible_items has_permission
visible_items_lem user permissions = elim (Bool-cases (truthy? (get? "is_admin" user))) [
  | inl a ↦ rw (a) refl
  | inr b ↦ rw (b) refl
]
