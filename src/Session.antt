-- ===== src/Session.antt =====
-- auth.tsx: the state of `AuthProvider` with the localStorage that it persists itself in, and the
-- answers of `GET /api/auth/me`.
pub mod Laws
pub mod Refresh
pub mod Tests
pub mod Refines
use bv_orchestrator.Json.{Json, obj, end, get, get?, truthy, or_json, non_null, is_object, to_text}
use bv_orchestrator.Storage.{Item, text, json, Storage, get_item, set_item, remove_item}
use bv_orchestrator.Route.{AuthStatus, loading, authenticated, unauthenticated}
use bv_orchestrator.Common.{
  leb, ◌==◌, nat_eq, string_eq, if◌then◌else◌, or_default, is_empty, includes, ℕ, String, Bool,
  ◌&&◌, Option, none, some, List, [], ◌∷◌,
}

-- `useState` of the provider; `hash` is the window's.
pub record Session : Type 0 where
  pub status : AuthStatus
  pub token : Option String
  pub user : Option Json
  pub permissions : Json
  pub local : Storage
  pub hash : String

-- `me?.permissions?.flat || me?.permissions`
abbrev pub permissions_of : Option Json → Option Json
permissions_of me = or_json (get? "flat" (get? "permissions" me)) (get? "permissions" me)

-- `perms && typeof perms === 'object'`
abbrev pub as_object : Option Json → Option Json
as_object none = none
as_object (some v) = if truthy v && is_object v then some v else none

-- `me.user` and `me.user.username`, where each is set
abbrev pub persist_user : Option Json → Storage → Storage
persist_user none m = m
persist_user (some user) m =
    if truthy user
    then (let m' = set_item "currentUser" (json user) m in
        elim (get "username" user) [
          | none ↦ m'
          | some name ↦ if truthy name then set_item "username" (text (to_text name)) m' else m'
        ])
    else m

abbrev pub persist_permissions : Option Json → Storage → Storage
persist_permissions none m = m
persist_permissions (some perms) m = set_item "permissions" (json perms) m

unfoldable pub persist_auth : String → Option Json → Storage → Storage
persist_auth token me m =
    persist_permissions (as_object (permissions_of me))
      (persist_user (get? "user" me) (set_item "token" (text token) m))

unfoldable pub clear_auth_storage : Storage → Storage
clear_auth_storage m = remove_item "permissions" (remove_item "currentUser" (remove_item "token" m))

unfoldable pub set_authenticated_session : String → Option Json → Session → Session
unfolding persist_auth
set_authenticated_session token me s = record s {
  local = persist_auth token me s.local;
  token = some token;
  user = non_null (get? "user" me);
  permissions = or_default (as_object (permissions_of me)) (obj end);
  status = authenticated;
}

unfoldable pub logout : Session → Session
unfolding clear_auth_storage
logout s = record s {
  local = clear_auth_storage s.local;
  token = none;
  user = none;
  permissions = obj end;
  status = unauthenticated;
}

-- What `fetch` comes to: it throws, or there is a status and a body, which `json()` may refuse.
pub data Reply : Type 0 where
  network_error : Reply
  reply : (status : ℕ) → (body : Option Json) → Reply

-- the token of an item; a token is stored as a text
abbrev pub token_text : Option Item → String
token_text none = ""
token_text (some (text t)) = t
token_text (some (json v)) = to_text v

-- `refresh` up to its `await fetch(…)`, and the token that it sends, if it does
unfoldable pub refresh_start : Session → Session × Option String
unfolding logout
refresh_start s =
    let stored = token_text (get_item "token" s.local) in
    if is_empty stored then (logout s, none) else (record s { status = loading }, some stored)

-- The wrapper that the provider puts round `window.fetch`, on the answer of a request.
unfoldable pub intercept : String → Reply → Session → Session
unfolding logout
intercept url network_error s = s
intercept url (reply status body) s =
    if status == 401 && includes url "/api/auth/me"
    then record (logout s) { hash = "#/login" }
    else s

-- `res.ok`
abbrev pub is_ok : ℕ → Bool
is_ok status = leb 200 status && leb status 299

-- the rest of `refresh`, with its `catch`
unfoldable pub refresh_finish : String → Reply → Session → Session
unfolding set_authenticated_session logout
refresh_finish stored network_error s = logout s
refresh_finish stored (reply status none) s = logout s
refresh_finish stored (reply status (some me)) s =
    if is_ok status then set_authenticated_session stored (some me) s else logout s

-- The whole answer: the wrapper sees it first.
unfoldable pub refresh_reply : String → Reply → Session → Session
unfolding intercept refresh_finish
refresh_reply stored r s = refresh_finish stored r (intercept "/api/auth/me" r s)

-- What may happen to the provider, in any order; a `refresh` is two events, with others between.
pub data Event : Type 0 where
  session_set : (token : String) → (me : Option Json) → Event
  logged_out : Event
  refresh_started : Event
  refresh_replied : (stored : String) → Reply → Event
  fetched : (url : String) → Reply → Event

unfoldable pub step : Session → Event → Session
unfolding set_authenticated_session logout refresh_start refresh_reply intercept
step s (session_set token me) = set_authenticated_session token me s
step s logged_out = logout s
step s refresh_started = (refresh_start s).0
step s (refresh_replied stored r) = refresh_reply stored r s
step s (fetched url r) = intercept url r s

unfoldable pub run : Session → List Event → Session
unfolding step
run s [] = s
run s (e ∷ es) = run (step s e) es

-- the provider when the page is loaded
unfoldable pub initial : Storage → String → Session
initial m hash = record {
  status = loading;
  token = none;
  user = none;
  permissions = obj end;
  local = m;
  hash = hash;
}
