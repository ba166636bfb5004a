-- ===== src/Nav.antt =====
-- AppLayout.tsx: the header's navigation bar, its permissions, its names, and its logout.
pub mod Laws
pub mod Exclusive
pub mod Tests
use bv_orchestrator.Common.Prefix.{starts_with}
use bv_orchestrator.Json.{Json, get, get?, truthy, truthy?, or_json, to_text}
use bv_orchestrator.Storage.{text, json, Storage, get_item}
use bv_orchestrator.Session.{Session, logout}
use mathlib.Core.Option
use bv_orchestrator.Common.{
  ◌==◌, nat_eq, string_eq, if◌then◌else◌, keep, any, ◌+++◌, trim, String, Bool, true, ◌||◌, Option,
  none, some, List, [], ◌∷◌, ◌++◌,
}

pub data Op : Type 0 where
  view edit create delete : Op

abbrev op_text : Op → String
op_text view = "view"
op_text edit = "edit"
op_text create = "create"
op_text delete = "delete"

pub record Permission : Type 0 where
  pub artifact : String
  pub op : Op

-- `hasPermission`: `user` and `permissions` are those of the session
unfoldable pub has_permission : Option Json → Json → Option Permission → Bool
has_permission user permissions none = true
has_permission user permissions (some perm) =
    if truthy? (get? "is_admin" user)
    then true
    else truthy? (get (perm.artifact +++ ":" +++ op_text perm.op) permissions)

-- An entry of the bar; `own` are the prefixes of its `match`, and without `match` the entry is
-- active where the hash starts with its `href`.
pub record NavItem : Type 0 where
  pub label : String
  pub href : String
  pub exact : List String
  pub own : List String
  pub perm : Option Permission

abbrev plain_item : String → String → List String → NavItem
plain_item label href own = record {
  label = label;
  href = href;
  exact = [];
  own = own;
  perm = none;
}

abbrev viewed_item : String → String → String → NavItem
viewed_item label href artifact = record {
  label = label;
  href = href;
  exact = [];
  own = href ∷ [];
  perm = some (record { artifact = artifact; op = view });
}

abbrev pub open_items : List NavItem
open_items =
    record {
      label = "Dashboard";
      href = "#/dashboard";
      exact = "#/" ∷ [];
      own = "#/dashboard" ∷ [];
      perm = none;
    }
    ∷ plain_item "Automations" "#/automations"
        ("#/automations" ∷ "#/processes" ∷ "#/jobs" ∷ "#/triggers" ∷ "#/logs" ∷ [])
    ∷ plain_item "Machines" "#/machines" ("#/machines" ∷ [])
    ∷ plain_item "Robots" "#/robots" ("#/robots" ∷ [])
    ∷ plain_item "Packages" "#/packages" ("#/packages" ∷ [])
    ∷ plain_item "Queues" "#/queues" ("#/queues" ∷ [])
    ∷ plain_item "Assets" "#/assets" ("#/assets" ∷ [])
    ∷ plain_item "Manage Access" "#/access/users" ("#/access" ∷ "#/manage-access" ∷ [])
    ∷ []

abbrev pub restricted_items : List NavItem
restricted_items =
    viewed_item "Audit" "#/audit" "audit"
    ∷ viewed_item "Credential Stores" "#/credential-stores" "credential_stores"
    ∷ viewed_item "Settings" "#/settings" "settings"
    ∷ []

abbrev pub nav_items : List NavItem
nav_items = open_items ++ restricted_items

-- `items.filter(it => hasPermission(user, permissions, it.perm))`
unfoldable pub visible_items : Option Json → Json → List NavItem
unfolding has_permission
visible_items user permissions = keep (λ it. has_permission user permissions it.perm) nav_items

-- `it.match(hash)`, or `hash.startsWith(it.href)`
unfoldable pub is_active : String → NavItem → Bool
is_active hash it = any (λ s. hash == s) it.exact || any (starts_with hash) it.own

-- The text of a value, or "" where it is falsy.

abbrev text_of? : Option Json → String
text_of? none = ""
text_of? (some v) = if truthy v then to_text v else ""

-- `JSON.parse(localStorage.getItem('currentUser'))`; a plain text there is no JSON
abbrev pub stored_user : Storage → Option Json
stored_user m = elim (get_item "currentUser" m) [
  | none ↦ none
  | some (text s) ↦ none
  | some (json v) ↦ some v
]

unfoldable pub display_name : Session → String
unfolding trim
display_name s =
    let stored = stored_user s.local in
    trim (
      text_of? (
        or_json (get? "display_name" s.user) (
          or_json (get? "full_name" s.user)
            (or_json (get? "display_name" stored) (get? "full_name" stored)))))

-- The header's `handleLogout`; `return_to` is sessionStorage's item `bv_return_to`.
unfoldable pub handle_logout : Session → Option String → Session × Option String
unfolding logout
handle_logout s return_to = (record (logout s) { hash = "#/logged-out" }, none)
