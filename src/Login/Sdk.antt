-- ===== src/Login/Sdk.antt =====
-- SdkAuthPage.tsx: the page that confirms a session of the SDK. The parameter is `getSessionIdFromHash`
-- where the browser's `URL` reads the query.
use bv_orchestrator.Login.{Visit, go}
use bv_orchestrator.Session.{token_text}
use bv_orchestrator.Storage.{get_item, remove_item}
use bv_orchestrator.Common.Prefix.{starts_with}
use bv_orchestrator.Common.{
  leb, ◌==◌, nat_eq, string_eq, if◌then◌else◌, or_default, is_empty, or_text, to_lower, includes, ℕ,
  String, Bool, true, false, not, ◌&&◌, Option, none, some,
}

pub data SdkStatus : Type 0 where
  idle waiting success failure : SdkStatus

-- the component's state, with its ref
pub record Sdk : Type 0 where
  pub status : SdkStatus
  pub message : String
  pub has_confirmed : Bool

abbrev pub opened : Sdk
opened = record { status = idle; message = ""; has_confirmed = false }

-- `storeReturnToOnce`
unfoldable pub store_return_to_once : Visit → Visit
unfolding starts_with
store_return_to_once w =
    if not (is_empty w.session.hash)
      && not (starts_with w.session.hash "#/login")
      && is_empty (or_default w.return_to "")
    then record w { return_to = some w.session.hash }
    else w

abbrev pub to_login : Visit → Visit
to_login w = go "#/login" (store_return_to_once w)

-- the token that localStorage holds, an empty one being none
abbrev pub stored_token : Visit → String
stored_token w = token_text (get_item "token" w.session.local)

-- the request for the confirmation
pub record Confirmation : Type 0 where
  pub session_id : String
  pub token : String

-- The effect once there is a session id.
unfoldable pub confirm_start : String → Visit → Sdk → Visit × Sdk × Option Confirmation
unfolding store_return_to_once
confirm_start id w s =
    if is_empty (stored_token w)
    then (to_login w, s, none)
    else if s.has_confirmed
    then (w, s, none)
    else (
      w,
      record { status = waiting; message = "Confirming authentication…"; has_confirmed = true },
      some (record { session_id = id; token = stored_token w }),
    )

-- What the request comes to: it throws, or there is a status with a body, of which `json()`
-- may throw.
pub data ConfirmReply : Type 0 where
  thrown : (message : String) → ConfirmReply
  answered : (status : ℕ) (body : String) (json_error : Option String) → ConfirmReply

abbrev pub is_already_confirmed : String → Bool
is_already_confirmed body = includes (to_lower body) "already" && includes (to_lower body) "confirm"

-- The message of the error that the chain of promises ends with, if it does.
unfoldable pub confirm_error : ConfirmReply → Option String
unfolding to_lower
confirm_error (thrown message) = some message
confirm_error (answered status body json_error) =
    if status == 401
    then some "unauthorized"
    else if not (leb 200 status && leb status 299)
    then (if is_already_confirmed body
        then none
        else some (or_text body "Failed to confirm session"))
    else json_error

abbrev forget_token : Visit → Visit
forget_token w = record w {
  session = record w.session { local = remove_item "token" w.session.local };
}

-- The `then` and the `catch` at the end of the chain.
unfoldable pub settle_confirm : Option String → Visit → Sdk → Visit × Sdk
unfolding store_return_to_once
settle_confirm none w s = (
  w,
  record s { status = success; message = "Authentication successful. You may return to the CLI." },
)
settle_confirm (some e) w s =
    if e == "unauthorized"
    then (to_login (forget_token w), s)
    else (w, record s { status = failure; message = or_text e "Failed to confirm session" })

unfoldable pub confirm_finish : ConfirmReply → Visit → Sdk → Visit × Sdk
unfolding settle_confirm confirm_error
confirm_finish r w s = settle_confirm (confirm_error r) w s

abbrev missing : Visit → Sdk → Visit × Sdk × Option Confirmation
missing w s = (
  w,
  record s {
    status = failure;
    message = "Missing session_id. You can close this window and restart SDK authentication.";
  },
  none,
)

-- The effect, at what the hash has as its session id.
unfoldable pub start_with : Option String → Visit → Sdk → Visit × Sdk × Option Confirmation
unfolding confirm_start
start_with none w s = missing w s
start_with (some id) w s = if is_empty id then missing w s else confirm_start id w s

module _ (session_id_of : String → Option String) where
  -- The effect.
  unfoldable pub start : Visit → Sdk → Visit × Sdk × Option Confirmation
  unfolding start_with
  start w s = start_with (session_id_of w.session.hash) w s
