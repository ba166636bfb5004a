-- ===== src/Login.antt =====
-- Login.tsx and LoggedOutPage.tsx, with the session and the window that they change.
pub mod Sdk
pub mod Race
pub mod Once
pub mod Forms
pub mod Links
pub mod Tests
use bv_orchestrator.Json.{Json, truthy}
use bv_orchestrator.Route.{Router}
use bv_orchestrator.Session.{Session, set_authenticated_session, logout}
use bv_orchestrator.Common.Prefix.{starts_with}
use bv_orchestrator.Common.{
  nat_eq, string_eq, if◌then◌else◌, is_empty, or_text, String, Bool, true, false, not, ◌&&◌, Option,
  none, some, List, [], ◌∷◌,
}

-- The provider's session, the window's hash in it, and sessionStorage's item `bv_return_to`.
pub record Visit : Type 0 where
  pub session : Session
  pub return_to : Option String

-- the router at the route that it shows
abbrev pub router : String → Visit → Router
router route w = record {
  status = w.session.status;
  route = route;
  hash = w.session.hash;
  return_to = w.return_to;
}

abbrev pub go : String → Visit → Visit
go hash w = record w { session = record w.session { hash = hash } }

-- the component's state
pub record Form : Type 0 where
  pub username : String
  pub password : String
  pub loading : Bool
  pub message : Option String

abbrev pub Params : Type 0
Params = List (String × String)

-- `handleSubmit` up to the request, and what it sends
unfoldable pub submit_start : Form → Form × Option Params
submit_start form = if form.loading then (form, none) else (
  record form { message = none; loading = true },
  some
      (("username", form.username) ∷ ("password", form.password) ∷ ("grant_type", "password") ∷ []),
)

-- What the requests come to: an error with its message, or a token with the answer of
-- `/api/auth/me`, where there is one.
pub data LoginReply : Type 0 where
  rejected : (message : String) → LoginReply
  accepted : (access_token : String) (me : Option Json) → LoginReply

-- `throw new Error(text || 'Login failed')`
abbrev pub refused_with : String → LoginReply
refused_with body = rejected (or_text body "Login failed")

-- `me || undefined`
abbrev pub me_or_undefined : Option Json → Option Json
me_or_undefined none = none
me_or_undefined (some me) = if truthy me then some me else none

-- where the login leads
abbrev pub destination : Option String → String
destination none = "#/dashboard"
destination (some r) =
    if not (is_empty r) && not (starts_with r "#/login") then r else "#/dashboard"

-- The rest of `handleSubmit`.
unfoldable pub submit_finish : LoginReply → Visit → Form → Visit × Form
unfolding set_authenticated_session starts_with
submit_finish (rejected message) w form =
    (w, record form { message = some (or_text message "Error"); loading = false })
submit_finish (accepted token me) w form = (
  go (destination w.return_to) (record {
    session = set_authenticated_session token (me_or_undefined me) w.session;
    return_to = none;
  }),
  record form { loading = false },
)

-- the effect of LoggedOutPage
unfoldable pub logged_out_effect : Visit → Visit
unfolding logout
logged_out_effect w = record { session = logout w.session; return_to = none }
