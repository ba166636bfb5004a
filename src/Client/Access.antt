-- ===== src/Client/Access.antt =====
-- api/access.ts: the calls of the roles, the users and the invites. The permissions of a payload are
-- those of the form of a role.
use bv_orchestrator.Client.Views.{
  RoleView, UserView, InviteView, to_role, to_user_summary, to_invite,
}
use bv_orchestrator.Client.Decode.{mapped, mapped_or_none, of_object}
use bv_orchestrator.Roles.{RolePermission, permission_body}
use bv_orchestrator.Json.{Json, null, num, str, arr, obj, Elems, nil, cons, prop, end, get}
use bv_orchestrator.Common.Number.{int}
use bv_orchestrator.Common.Int.{pos}
use bv_orchestrator.Client.{
  Call, open_headers, with_json, without_body, with_body, given_prop, read_with, read_void,
}
use bv_orchestrator.Common.{
  nat_eq, string_eq, ◌+++◌, show_nat, ℕ, String, ◌⊎◌, inl, inr, Option, none, some, List, [], ◌∷◌,
}

abbrev pub permission_elems : List RolePermission → Elems
permission_elems [] = nil
permission_elems (p ∷ ps) = cons (permission_body p) (permission_elems ps)

abbrev id_elems : List ℕ → Elems
id_elems [] = nil
id_elems (id ∷ ids) = cons (num (int (pos id))) (id_elems ids)

-- the body of `createRole`; a description that is missing is `none`
unfoldable pub new_role : String → Option String → List RolePermission → Json
new_role name description ps = obj (
    prop "name" (str name) (
      prop "description" (elim description [ none ↦ null | some d ↦ str d ])
        (prop "permissions" (arr (permission_elems ps)) end)))

abbrev text? : Option String → Option Json
text? none = none
text? (some s) = some (str s)

abbrev permissions? : Option (List RolePermission) → Option Json
permissions? none = none
permissions? (some ps) = some (arr (permission_elems ps))

-- the body of `updateRole`
unfoldable pub role_changes : Option String → Option String → Option (List RolePermission) → Json
role_changes name description ps = obj (
    given_prop "name" (text? name) (
      given_prop "description" (text? description)
        (given_prop "permissions" (permissions? ps) end)))

-- the body of `sendInvite`; role ids that are missing are []
unfoldable pub invite_body : String → List ℕ → Json
invite_body email [] = obj (prop "email" (str email) end)
invite_body email (id ∷ ids) =
    obj (prop "email" (str email) (prop "role_ids" (arr (id_elems (id ∷ ids))) end))

pub record UserRoles : Type 0 where
  pub user : UserView
  pub roles : List RoleView

abbrev user_and : String ⊎ UserView → String ⊎ List RoleView → String ⊎ UserRoles
user_and (inl e) roles = inl e
user_and (inr u) (inl e) = inl e
user_and (inr u) (inr roles) = inr (record { user = u; roles = roles })

abbrev user_at : Option Json → String ⊎ UserView
user_at none = inl "Cannot read properties of undefined"
user_at (some v) = to_user_summary v

-- `{ user: toUserSummary(data.user), roles: (data.roles || []).map(toRole) }`
unfoldable pub to_user_roles : Json → String ⊎ UserRoles
unfolding to_user_summary to_role
to_user_roles v =
    of_object (λ d. user_and (user_at (get "user" d)) (mapped_or_none to_role (get "roles" d))) v

module _ (parse : String → String ⊎ Json) (token : Option String) where
  unfoldable pub fetch_roles : Call (List RoleView)
  fetch_roles = record {
    request = inr (without_body "GET" "/api/access/roles" [] (open_headers token));
    receive = read_with parse (λ t. t) (mapped to_role);
  }

  unfoldable pub create_role : String → Option String → List RolePermission → Call RoleView
  create_role name description ps = record {
    request = inr (
        with_body "POST" "/api/access/roles" (new_role name description ps)
          (with_json (open_headers token)));
    receive = read_with parse (λ t. t) to_role;
  }

  unfoldable pub update_role :
      ℕ → Option String → Option String → Option (List RolePermission) → Call RoleView
  update_role id name description ps = record {
    request = inr (
        with_body "PUT" ("/api/access/roles/" +++ show_nat id) (role_changes name description ps)
          (with_json (open_headers token)));
    receive = read_with parse (λ t. t) to_role;
  }

  unfoldable pub delete_role : ℕ → Call (Option Json)
  delete_role id = record {
    request =
        inr (without_body "DELETE" ("/api/access/roles/" +++ show_nat id) [] (open_headers token));
    receive = read_void (λ t. t);
  }

  unfoldable pub fetch_users : Call (List UserView)
  fetch_users = record {
    request = inr (without_body "GET" "/api/access/users" [] (open_headers token));
    receive = read_with parse (λ t. t) (mapped to_user_summary);
  }

  unfoldable pub fetch_user_roles : ℕ → Call UserRoles
  fetch_user_roles user_id = record {
    request = inr (
        without_body "GET" ("/api/access/users/" +++ show_nat user_id +++ "/roles") []
          (open_headers token));
    receive = read_with parse (λ t. t) to_user_roles;
  }

  unfoldable pub assign_user_roles : ℕ → List ℕ → Call UserRoles
  assign_user_roles user_id role_ids = record {
    request = inr (
        with_body "POST" ("/api/access/users/" +++ show_nat user_id +++ "/roles")
          (obj (prop "role_ids" (arr (id_elems role_ids)) end)) (with_json (open_headers token)));
    receive = read_with parse (λ t. t) to_user_roles;
  }

  unfoldable pub disable_user : ℕ → Call UserView
  disable_user user_id = record {
    request = inr (
        without_body "POST" ("/api/access/users/" +++ show_nat user_id +++ "/disable") []
          (open_headers token));
    receive = read_with parse (λ t. t) to_user_summary;
  }

  unfoldable pub enable_user : ℕ → Call UserView
  enable_user user_id = record {
    request = inr (
        without_body "POST" ("/api/access/users/" +++ show_nat user_id +++ "/enable") []
          (open_headers token));
    receive = read_with parse (λ t. t) to_user_summary;
  }

  unfoldable pub admin_password_reset : ℕ → Call (Option Json)
  admin_password_reset user_id = record {
    request = inr (
        without_body "POST" ("/api/access/users/" +++ show_nat user_id +++ "/password-reset") []
          (open_headers token));
    receive = read_void (λ t. t);
  }

  unfoldable pub fetch_invites : Call (List InviteView)
  fetch_invites = record {
    request = inr (without_body "GET" "/api/users/invites" [] (open_headers token));
    receive = read_with parse (λ t. t) (mapped to_invite);
  }

  unfoldable pub send_invite : String → List ℕ → Call InviteView
  send_invite email role_ids = record {
    request = inr (
        with_body "POST" "/api/users/invite" (invite_body email role_ids)
          (with_json (open_headers token)));
    receive = read_with parse (λ t. t) to_invite;
  }

  unfoldable pub resend_invite : ℕ → Call InviteView
  resend_invite invite_id = record {
    request = inr (
        without_body "POST" ("/api/users/invite/" +++ show_nat invite_id +++ "/resend") []
          (open_headers token));
    receive = read_with parse (λ t. t) to_invite;
  }

  unfoldable pub revoke_invite : ℕ → Call (Option Json)
  revoke_invite invite_id = record {
    request = inr (
        without_body "DELETE" ("/api/users/invite/" +++ show_nat invite_id) []
          (open_headers token));
    receive = read_void (λ t. t);
  }
