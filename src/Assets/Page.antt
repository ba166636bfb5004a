-- ===== src/Assets/Page.antt =====
-- AssetsPage.tsx: what the user may do, by what the session has left in localStorage, and the list of assets
-- with its selection and deletions. The parameter is `JSON.parse`, for an item that is a text; `none` is the
-- error that it throws.
use bv_orchestrator.Assets.{AssetType}
use bv_orchestrator.Json.{Json, null, obj, end, get, truthy?, to_text}
use bv_orchestrator.Session.{token_text}
use bv_orchestrator.Storage.{Item, text, json, Storage, get_item}
use bv_orchestrator.Bulk.{toggle_id, toggle_all, delete_each, report}
use bv_orchestrator.Common.{
  ◌==◌, nat_eq, string_eq, if◌then◌else◌, is_some, length, keep, ◌+++◌, is_empty, or_text, show_nat,
  ℕ, String, Bool, true, not, ◌||◌, Option, none, some, List, [], ◌∷◌, map,
}

pub record Grants : Type 0 where
  pub can_create : Bool
  pub can_edit : Bool
  pub can_delete : Bool

abbrev pub all_granted : Grants
all_granted = record { can_create = true; can_edit = true; can_delete = true }

-- `!!pm['assets:create']` and the others, which throw where `pm` is null
unfoldable pub grants_of : Json → Grants
grants_of null = all_granted
grants_of pm = record {
  can_create = truthy? (get "assets:create" pm);
  can_edit = truthy? (get "assets:edit" pm);
  can_delete = truthy? (get "assets:delete" pm);
}

abbrev pub grants_if_parsed : Option Json → Grants
grants_if_parsed none = all_granted
grants_if_parsed (some pm) = grants_of pm

-- by the user, who may be an administrator, and by the permissions
abbrev pub grants_from : Option Json → Option Json → Grants
grants_from none permissions = all_granted
grants_from (some user) permissions =
    if truthy? (get "is_admin" user) then all_granted else grants_if_parsed permissions

module _ (parse : String → Option Json) where
  -- `JSON.parse(localStorage.getItem(k) || …)`
  abbrev pub parsed : Json → Option Item → Option Json
  parsed otherwise none = some otherwise
  parsed otherwise (some (json v)) = some v
  parsed otherwise (some (text t)) = if is_empty t then some otherwise else parse t

  -- The effect when the page is opened, which finds everything granted: the hash that it sets, if it does, and
  -- the grants.
  unfoldable pub grants : Storage → Option String × Grants
  unfolding grants_of to_text
  grants m = if is_empty (token_text (get_item "token" m)) then (some "#/", all_granted) else (
    none,
    grants_from (parsed null (get_item "currentUser" m))
        (parsed (obj end) (get_item "permissions" m)),
  )

pub record Asset : Type 0 where
  pub id : ℕ
  pub name : String
  pub type : AssetType
  pub value : String
  pub username : Option String
  pub is_secret : Bool
  pub credential_store_id : Option ℕ
  pub description : Option String

-- The state of the list; `said` are the titles of its toasts and alerts, the newest first.
pub record AssetsPage : Type 0 where
  pub items : List Asset
  pub error : Option String
  pub selected : List ℕ
  pub said : List String

abbrev pub say : String → AssetsPage → AssetsPage
say title v = record v { said = title ∷ v.said }

-- what a request for the assets comes to: them, or the message of its error
pub data Loaded : Type 0 where
  came : List Asset → Loaded
  failed : (message : String) → Loaded

unfoldable pub load : Loaded → AssetsPage → AssetsPage
load (came assets) v = record v { items = assets; error = none }
load (failed e) v = record v { error = some (or_text e "Failed to load assets") }

-- `handleDelete`, which also takes the asset out of the selection
unfoldable pub handle_delete :
    (ℕ → Option String) → Loaded → Bool → ℕ → AssetsPage → List ℕ × AssetsPage
unfolding load
handle_delete answer after confirmed id v =
    if not confirmed
    then ([], v)
    else if is_some (answer id)
    then (id ∷ [], say "Delete failed" v)
    else (
      id ∷ [],
      say "Asset deleted"
          (load after (record v { selected = keep (λ x. not (x == id)) v.selected })),
    )

unfoldable pub toggle_select : ℕ → AssetsPage → AssetsPage
unfolding toggle_id
toggle_select id v = record v { selected = toggle_id id v.selected }

unfoldable pub toggle_select_all : AssetsPage → AssetsPage
unfolding toggle_all
toggle_select_all v = record v {
  selected = toggle_all (map (λ (a : Asset). a.id) v.items) v.selected;
}

unfoldable pub handle_bulk_delete :
    (ℕ → Option String) → Loaded → Bool → AssetsPage → List ℕ × AssetsPage
unfolding load delete_each report show_nat
handle_bulk_delete answer after confirmed v =
    if length v.selected == 0 || not confirmed
    then ([], v)
    else (let (count, errors) = delete_each (λ id. "asset " +++ show_nat id) answer v.selected in
        (v.selected, load after (record (say (report "asset" count errors).0 v) { selected = [] })))
