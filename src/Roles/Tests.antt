-- ===== src/Roles/Tests.antt =====
-- A role's matrix (ManageAccessPage.tsx).
use bv_orchestrator.Roles.Reopen.{toggles, with_ids, answer_elems, reopen_lem}
use bv_orchestrator.Client.Views.{RoleView, to_role}
use bv_orchestrator.Client.Access.{permission_elems, role_changes}
use bv_orchestrator.Json.{Props, Json, num, prop, end, str, arr, obj}
use bv_orchestrator.Roles.{RolePermission, init_perms, artifacts, can_create}
use bv_orchestrator.Common.Number.{int}
use bv_orchestrator.Common.Int.{pos}
use bv_orchestrator.Common.{
  ℕ, ◌+◌, List, nat_eq, string_eq, ◌≡◌, refl, true, false, none, [], ◌∷◌, map, inr,
}

abbrev jobs_row : RolePermission
jobs_row = record {
  id = none;
  artifact = "jobs";
  can_view = true;
  can_create = false;
  can_edit = true;
  can_delete = false;
}

matrix_test :
    map (λ (p : RolePermission). p.can_view) (init_perms artifacts (jobs_row ∷ []))
    ≡ false ∷ false ∷ false ∷ false ∷ true ∷ false ∷ false ∷ false ∷ false ∷ false ∷ []
unfolding init_perms
matrix_test = refl

abbrev ids : ℕ → Json
ids n = num (int (pos (n + 40)))

abbrev saved : List RolePermission
saved = toggles (("jobs", can_create) ∷ []) (init_perms artifacts (jobs_row ∷ []))

abbrev role_json : Props
role_json =
    prop "name" (str "clerks")
      (prop "permissions" (arr (answer_elems ids 0 (permission_elems saved))) end)

reopen_lem_example :
    (role : RoleView) × (to_role (obj role_json) ≡ inr role)
    × (init_perms artifacts role.permissions ≡ with_ids ids 0 saved)
unfolding role_changes
reopen_lem_example =
    reopen_lem ids (jobs_row ∷ []) (("jobs", can_create) ∷ []) "clerks" "" role_json refl
