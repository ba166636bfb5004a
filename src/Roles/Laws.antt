-- ===== src/Roles/Laws.antt =====
-- What becomes of a role's permissions (api/access.ts and `RoleModal` of ManageAccessPage.tsx).
use bv_orchestrator.Json.{to_text}
use bv_orchestrator.Roles.{
  RolePermission, to_role_permission, permission_body, Column, can_view, can_create, can_edit,
  can_delete, flip, toggle,
}
use bv_orchestrator.Common.{
  ◌==◌, nat_eq, string_eq, Bool-cases, String, ◌≡◌, refl, ap, ◌∙◌, inl, inr, Bool, true, false, not,
  none, List, [], ◌∷◌,
}

not-not : (b : Bool) → not (not b) ≡ b
not-not true = refl
not-not false = refl

pub flip-artifact : (key : Column) (p : RolePermission) → (flip key p).artifact ≡ p.artifact
unfolding flip
flip-artifact can_view p = refl
flip-artifact can_create p = refl
flip-artifact can_edit p = refl
flip-artifact can_delete p = refl

flip-flip : (key : Column) (p : RolePermission) → flip key (flip key p) ≡ p
unfolding flip
flip-flip can_view p = ap (λ b. record p { can_view = b }) (not-not p.can_view)
flip-flip can_create p = ap (λ b. record p { can_create = b }) (not-not p.can_create)
flip-flip can_edit p = ap (λ b. record p { can_edit = b }) (not-not p.can_edit)
flip-flip can_delete p = ap (λ b. record p { can_delete = b }) (not-not p.can_delete)

-- A box of the matrix that is clicked twice leaves all permissions as they were.
toggle-toggle :
    (artifact : String) (key : Column) (ps : List RolePermission)
    → toggle artifact key (toggle artifact key ps) ≡ ps
unfolding toggle
toggle-toggle artifact key [] = refl
toggle-toggle artifact key (p ∷ ps) =
    let rest = toggle-toggle artifact key ps in
    let same = flip-artifact key p in
    let twice = flip-flip key p in
    elim (Bool-cases (p.artifact == artifact)) [
      | inl y ↦
          (let again : ((flip key p).artifact == artifact) ≡ true =
              ap (λ a. a == artifact) same ∙ y in
            rw (y, again, twice, rest) refl)
      | inr n ↦ rw (n, n, rest) refl
    ]

-- A permission that is sent and read back is the same but for its id, which is not sent.
pub to_role_permission-body :
    (p : RolePermission) → to_role_permission (permission_body p) ≡ record p { id = none }
unfolding to_role_permission permission_body to_text
to_role_permission-body p = refl
