-- ===== src/Roles.antt =====
-- Roles: api/access.ts, and the matrix of permissions of ManageAccessPage.tsx (`RoleModal`).
pub mod Laws
pub mod Tests
pub mod Reopen
pub mod Page
use bv_orchestrator.Json.{Json, bool, str, obj, end, prop, get, truthy?, to_text}
use bv_orchestrator.Common.{
  ◌==◌, nat_eq, string_eq, if◌then◌else◌, find_first, String, Bool, false, not, Option, none, some,
  List, [], ◌∷◌, map,
}

pub record RolePermission : Type 0 where
  pub id : Option Json
  pub artifact : String
  pub can_view : Bool
  pub can_create : Bool
  pub can_edit : Bool
  pub can_delete : Bool

abbrev artifact_of : Option Json → String
artifact_of none = ""
artifact_of (some v) = to_text v

-- `toRolePermission`; an artifact is a text
unfoldable pub to_role_permission : Json → RolePermission
to_role_permission p = record {
  id = get "id" p;
  artifact = artifact_of (get "artifact" p);
  can_view = truthy? (get "can_view" p);
  can_create = truthy? (get "can_create" p);
  can_edit = truthy? (get "can_edit" p);
  can_delete = truthy? (get "can_delete" p);
}

-- the permission in the body of `createRole` and of `updateRole`
unfoldable pub permission_body : RolePermission → Json
permission_body p = obj (
    prop "artifact" (str p.artifact) (
      prop "can_view" (bool p.can_view) (
        prop "can_create" (bool p.can_create)
          (prop "can_edit" (bool p.can_edit) (prop "can_delete" (bool p.can_delete) end)))))

pub data Column : Type 0 where
  can_view can_create can_edit can_delete : Column

unfoldable pub flip : Column → RolePermission → RolePermission
flip can_view p = record p { can_view = not p.can_view }
flip can_create p = record p { can_create = not p.can_create }
flip can_edit p = record p { can_edit = not p.can_edit }
flip can_delete p = record p { can_delete = not p.can_delete }

-- `toggle`, on the form's permissions
unfoldable pub toggle : String → Column → List RolePermission → List RolePermission
unfolding flip
toggle artifact key [] = []
toggle artifact key (p ∷ ps) =
    (if p.artifact == artifact then flip key p else p) ∷ toggle artifact key ps

abbrev row_of : String → Option RolePermission → RolePermission
row_of a none = record {
  id = none;
  artifact = a;
  can_view = false;
  can_create = false;
  can_edit = false;
  can_delete = false;
}
row_of a (some p) = record {
  id = p.id;
  artifact = a;
  can_view = p.can_view;
  can_create = p.can_create;
  can_edit = p.can_edit;
  can_delete = p.can_delete;
}

-- `initPerms`: a row for each artifact, in their order; `existing` are those of the edited role
unfoldable pub init_perms : List String → List RolePermission → List RolePermission
init_perms artifacts existing =
    map (λ a. row_of a (find_first (λ (p : RolePermission). p.artifact == a) existing)) artifacts

-- `ARTIFACTS`
abbrev pub artifacts : List String
artifacts =
    "dashboard" ∷ "processes" ∷ "packages" ∷ "assets" ∷ "jobs" ∷ "robots" ∷ "queues" ∷ "queue_items"
    ∷ "users" ∷ "roles" ∷ []
