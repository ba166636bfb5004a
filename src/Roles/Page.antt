-- ===== src/Roles/Page.antt =====
-- ManageAccessPage.tsx: the tab of the roles with its list, and the window of a role (`RolesTab`, `RoleModal`).
-- An answer of the server is an argument; an error is its message.
use bv_orchestrator.Roles.{RolePermission, Column, toggle, init_perms, artifacts}
use bv_orchestrator.Client.Views.{RoleView}
use bv_orchestrator.Json.{Json, str}
use bv_orchestrator.Common.{
  nat_eq, string_eq, if◌then◌else◌, is_some, is_empty, or_text, trim, String, ◌⊎◌, inl, inr, Bool,
  true, false, not, ◌&&◌, Option, none, some, List, [], ◌∷◌,
}

-- `RoleFormValues`
pub record RoleForm : Type 0 where
  pub name : String
  pub description : String
  pub permissions : List RolePermission

-- The state of the tab; `said` are the titles of its toasts and alerts, the newest first.
pub record RolesTab : Type 0 where
  pub items : List RoleView
  pub loading : Bool
  pub error : Option String
  pub modal_open : Bool
  pub editing : Option RoleView
  pub said : List String

abbrev pub say : String → RolesTab → RolesTab
say title v = record v { said = title ∷ v.said }

-- `load` up to its await, and the rest of it
unfoldable pub load_roles_start : RolesTab → RolesTab
load_roles_start v = record v { loading = true; error = none }

unfoldable pub load_roles_finish : String ⊎ List RoleView → RolesTab → RolesTab
load_roles_finish (inl e) v = record v {
  error = some (or_text e "Failed to load roles");
  loading = false;
}
load_roles_finish (inr roles) v = record v { items = roles; loading = false }

unfoldable pub open_new_role : RolesTab → RolesTab
open_new_role v = record v { editing = none; modal_open = true }

unfoldable pub open_edit_role : RoleView → RolesTab → RolesTab
open_edit_role r v = record v { editing = some r; modal_open = true }

unfoldable pub close_role : RolesTab → RolesTab
close_role v = record v { modal_open = false; editing = none }

-- a name or a description, which is a text where it is there
abbrev text_of : Option Json → String
text_of (some (str s)) = s
text_of _ = ""

-- the form that the window opens with
unfoldable pub form_of_role : Option RoleView → RoleForm
unfolding init_perms
form_of_role none = record { name = ""; description = ""; permissions = init_perms artifacts [] }
form_of_role (some r) = record {
  name = text_of r.name;
  description = text_of (some r.description);
  permissions = init_perms artifacts r.permissions;
}

-- a click on a box of the matrix
unfoldable pub toggle_box : String → Column → RoleForm → RoleForm
unfolding toggle
toggle_box artifact key form = record form { permissions = toggle artifact key form.permissions }

-- The state of the window.
pub record RoleModal : Type 0 where
  pub form : RoleForm
  pub saving : Bool

unfoldable pub open_role : Option RoleView → RoleModal
unfolding form_of_role
open_role initial = record { form = form_of_role initial; saving = false }

-- `submit` up to its await: the title of its alert, or the values that it saves
unfoldable pub submit_role : Option RoleView → RoleModal → (String ⊎ RoleForm) × RoleModal
unfolding trim
submit_role initial m =
    if not (is_some initial) && is_empty (trim m.form.name)
    then (inl "Name is required", m)
    else (inr m.form, record m { saving = true })

-- its end, whatever comes of it
unfoldable pub submit_role_finish : RoleModal → RoleModal
submit_role_finish m = record m { saving = false }

-- what `handleSave` asks of the server
pub data RoleRequest : Type 0 where
  created : RoleForm → RoleRequest
  updated : (id : Option Json) → RoleForm → RoleRequest

unfoldable pub save_role : RolesTab → RoleForm → RoleRequest
save_role v form = elim v.editing [ none ↦ created form | some r ↦ updated r.id form ]

-- The rest of `handleSave`, and of `handleDelete`, at the error of the server, if any; the flag says that the
-- list is loaded again, which the toast waits for.
unfoldable pub save_role_finish : Option String → RolesTab → RolesTab × Bool
unfolding close_role
save_role_finish none v =
    (say (if is_some v.editing then "Role updated" else "Role created") (close_role v), true)
save_role_finish (some e) v = (say "Save failed" v, false)

unfoldable pub delete_role_finish : Option String → RolesTab → RolesTab × Bool
delete_role_finish none v = (say "Role deleted" v, true)
delete_role_finish (some e) v = (say "Delete failed" v, false)

-- `handleDelete` up to its request
unfoldable pub delete_role_start : Bool → Option Json → Option (Option Json)
delete_role_start confirmed id = if confirmed then some id else none
