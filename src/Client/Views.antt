-- ===== src/Client/Views.antt =====
-- api/access.ts: what its calls make of the roles, the users and the invites of the server.
use bv_orchestrator.Client.Decode.{of_object, mapped_or_none, else_null}
use bv_orchestrator.Roles.{RolePermission, to_role_permission}
use bv_orchestrator.Users.{UserStatus, active, disabled, locked}
use bv_orchestrator.Json.{Json, bool, str, arr, elems, get, non_null, truthy?, to_text}
use bv_orchestrator.Common.{
  ◌==◌, nat_eq, string_eq, if◌then◌else◌, or_text, to_lower, String, ◌⊎◌, inl, inr, Bool, true,
  false, not, Option, none, some, List, [], map,
}

-- A role with its permissions, and a user, as the pages have them; a value that may be undefined is an option.
pub record RoleView : Type 0 where
  pub id : Option Json
  pub name : Option Json
  pub description : Json
  pub permissions : List RolePermission
  pub created_at : Option Json
  pub updated_at : Option Json

pub record UserView : Type 0 where
  pub id : Option Json
  pub username : Option Json
  pub email : Json
  pub is_active : Json
  pub status : UserStatus
  pub locked_until : Json
  pub roles : List String
  pub last_login : Json

pub record InviteView : Type 0 where
  pub id : Option Json
  pub email : Option Json
  pub status : String
  pub invited_by : Json
  pub expires_at : Json
  pub created_at : Option Json

abbrev pub role_of : Json → List RolePermission → RoleView
role_of r ps = record {
  id = get "id" r;
  name = get "name" r;
  description = else_null (get "description" r);
  permissions = ps;
  created_at = get "created_at" r;
  updated_at = get "updated_at" r;
}

abbrev role_with : Json → String ⊎ List RolePermission → String ⊎ RoleView
role_with r (inl e) = inl e
role_with r (inr ps) = inr (role_of r ps)

-- `toRole`
unfoldable pub to_role : Json → String ⊎ RoleView
unfolding to_role_permission
to_role v =
    of_object
      (λ r.
        role_with r
          (mapped_or_none (of_object (λ p. inr (to_role_permission p))) (get "permissions" r)))
      v

-- `typeof u.status === 'string' ? u.status.toLowerCase() : ''`
abbrev pub raw_status : Option Json → String
raw_status (some (str s)) = to_lower s
raw_status _ = ""

abbrev is_false : Option Json → Bool
is_false (some (bool false)) = true
is_false _ = false

-- the status of a user
unfoldable pub user_status : Json → UserStatus
user_status u =
    let raw = raw_status (get "status" u) in
    if raw == "disabled"
    then disabled
    else if raw == "locked"
    then locked
    else if raw == "active"
    then active
    else if is_false (get "is_active" u)
    then disabled
    else if truthy? (get "locked_until" u)
    then locked
    else active

abbrev is_disabled : UserStatus → Bool
is_disabled disabled = true
is_disabled _ = false

-- `Array.isArray(u.roles) ? u.roles.map(r => String(r)) : []`
abbrev role_names : Option Json → List String
role_names (some (arr vs)) = map to_text (elems vs)
role_names _ = []

-- `toUserSummary`, of an object
unfoldable pub user_view : Json → UserView
unfolding user_status to_text
user_view u = record {
  id = get "id" u;
  username = get "username" u;
  email = else_null (get "email" u);
  is_active = elim (non_null (get "is_active" u)) [
    | none ↦ bool (not (is_disabled (user_status u)))
    | some v ↦ v
  ];
  status = user_status u;
  locked_until = else_null (get "locked_until" u);
  roles = role_names (get "roles" u);
  last_login = else_null (get "last_login" u);
}

unfoldable pub to_user_summary : Json → String ⊎ UserView
unfolding user_view
to_user_summary v = of_object (λ u. inr (user_view u)) v

-- `((i.status || 'pending') as string).toLowerCase()`, of a status that is a text
abbrev invite_status : Option Json → String
invite_status (some (str s)) = to_lower (or_text s "pending")
invite_status _ = "pending"

-- `toInvite`
unfoldable pub to_invite : Json → String ⊎ InviteView
to_invite v =
    of_object
      (λ i. inr (record {
        id = get "id" i;
        email = get "email" i;
        status = invite_status (get "status" i);
        invited_by = else_null (get "invited_by" i);
        expires_at = else_null (get "expires_at" i);
        created_at = get "created_at" i;
      }))
      v
