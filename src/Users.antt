-- ===== src/Users.antt =====
-- ManageAccessPage.tsx: the tabs, the users with their roles, and the invites. The choice of a user asks for
-- the roles of that user, and other events may come before the answer.
pub mod Stale
pub mod Tests
pub mod Invites
use bv_orchestrator.Json.{Json, get?, truthy?}
use bv_orchestrator.Bulk.{toggle_id}
use bv_orchestrator.Common.Prefix.{starts_with}
use bv_orchestrator.Common.{
  ◌==◌, nat_eq, string_eq, if◌then◌else◌, is_some, get_elem?, find_first, is_empty, or_text, trim,
  ℕ, String, Bool, true, false, not, ◌||◌, Option, none, some, List, [], ◌∷◌,
}

pub data AccessTab : Type 0 where
  roles_tab users_tab : AccessTab

-- `tabFromHash`
unfoldable pub tab_from_hash : String → AccessTab
unfolding starts_with
tab_from_hash hash =
    if starts_with hash "#/access/users" || starts_with hash "#/access/invites"
    then users_tab
    else roles_tab

-- `goTab`: the hash that it sets
abbrev pub hash_of_tab : AccessTab → String
hash_of_tab roles_tab = "#/manage-access"
hash_of_tab users_tab = "#/access/users"

-- `canInvite` and `canManageUsers`
unfoldable pub can_invite : Option Json → Json → Bool
can_invite user permissions =
    truthy? (get? "is_admin" user)
    || truthy? (get? "users:invite" (some permissions))
    || truthy? (get? "users:create" (some permissions))

unfoldable pub can_manage_users : Option Json → Json → Bool
can_manage_users user permissions =
    truthy? (get? "is_admin" user) || truthy? (get? "users:edit" (some permissions))

pub data UserStatus : Type 0 where
  active disabled locked : UserStatus

-- types/access.ts
pub record UserSummary : Type 0 where
  pub id : ℕ
  pub username : String
  pub email : Option String
  pub is_active : Bool
  pub status : UserStatus
  pub locked_until : Option String
  pub roles : List String
  pub last_login : Option String

-- The state of the tab; `said` are the titles of its toasts and alerts, the newest first.
pub record UsersTab : Type 0 where
  pub users : List UserSummary
  pub error : Option String
  pub selected : Option UserSummary
  pub assigned : List ℕ
  pub message : Option String
  pub said : List String

abbrev pub say : String → UsersTab → UsersTab
say title v = record v { said = title ∷ v.said }

-- `selectUser` up to its request, which is for the roles of that user
unfoldable pub select_user : UserSummary → UsersTab → UsersTab × ℕ
select_user u v = (record v { message = none; selected = some u }, u.id)

-- The rest of it: the ids of the roles, or none where the request fails.
unfoldable pub roles_came : Option (List ℕ) → UsersTab → UsersTab
roles_came none v = record v { assigned = [] }
roles_came (some ids) v = record v { assigned = ids }

-- `u.find(x => x.id === preferUserId) || u[0]`
abbrev picked : Option ℕ → List UserSummary → Option UserSummary
picked none us = get_elem? us 0
picked (some id) us =
    if id == 0 then get_elem? us 0 else elim (find_first (λ (u : UserSummary). u.id == id) us) [
      | some u ↦ some u
      | none ↦ get_elem? us 0
    ]

abbrev show_picked : Option UserSummary → UsersTab → UsersTab × Option ℕ
show_picked none v = (record v { selected = none; assigned = [] }, none)
show_picked (some u) v = ((select_user u v).0, some (select_user u v).1)

-- `load`, once the users have come; it selects one of them.
unfoldable pub users_came : Option ℕ → List UserSummary → UsersTab → UsersTab × Option ℕ
unfolding select_user
users_came prefer us v = show_picked (picked prefer us) (record v { users = us; error = none })

unfoldable pub load_failed : String → UsersTab → UsersTab
load_failed e v = record v { error = some (or_text e "Failed to load data") }

unfoldable pub toggle_role : ℕ → UsersTab → UsersTab
unfolding toggle_id
toggle_role id v = record v { assigned = toggle_id id v.assigned }

-- What `save` sends: the user and the roles.
abbrev request_of : Option UserSummary → List ℕ → Option (ℕ × List ℕ)
request_of none ids = none
request_of (some u) ids = some (u.id, ids)

unfoldable pub save : UsersTab → Option (ℕ × List ℕ)
save v = request_of v.selected v.assigned

unfoldable pub save_finish : Option String → UsersTab → UsersTab
save_finish none v = say "Roles saved" v
save_finish (some e) v = say "Save failed" v

-- `handleDisable` and `handleEnable`, which differ in what they say: the user that is sent, and the page before
-- it loads its users again
unfoldable pub change_user :
    (done not_done : String) → (ℕ → Option String) → Bool → UsersTab → Option ℕ × UsersTab
change_user done not_done answer confirmed v = elim v.selected [
  | none ↦ (none, v)
  | some u ↦
      if not confirmed
      then (none, v)
      else if is_some (answer u.id)
      then (some u.id, say not_done (record v { message = none }))
      else (some u.id, say done (record v { message = some done }))
]

-- the form of an invite
pub record InviteForm : Type 0 where
  pub email : String
  pub role_ids : List ℕ
  pub sending : Bool
  pub error : Option String

unfoldable pub toggle_invite_role : ℕ → InviteForm → InviteForm
unfolding toggle_id
toggle_invite_role id form = record form { role_ids = toggle_id id form.role_ids }

-- `submit` of the form up to its request
unfoldable pub invite_start : InviteForm → InviteForm × Option (String × List ℕ)
unfolding trim
invite_start form =
    if is_empty (trim form.email)
    then (record form { error = some "Email is required" }, none)
    else (record form { sending = true; error = none }, some (trim form.email, form.role_ids))

unfoldable pub invite_finish : Option String → InviteForm → InviteForm
invite_finish none form = record form { sending = false }
invite_finish (some e) form = record form {
  error = some (or_text e "Failed to send invite");
  sending = false;
}
