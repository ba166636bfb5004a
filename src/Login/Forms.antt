-- ===== src/Login/Forms.antt =====
-- ForgotPasswordPage.tsx, ResetPasswordPage.tsx and InviteAcceptPage.tsx: the token in the hash, and the
-- submit handlers. The parameter of `extract_token` is `URLSearchParams(query).get('token')`.
use bv_orchestrator.Login.{Visit, go}
use bv_orchestrator.Common.{
  ◌==◌, nat_eq, string_eq, if◌then◌else◌, or_default, get_elem?, keep, is_empty, or_text, split,
  code, String, Bool, true, false, not, Option, none, some, List, [], ◌∷◌,
}

-- `s.replace(/^#/, '')`
abbrev pub without_hash : String → String
without_hash String.[] = ""
without_hash (String.◌∷◌ c s) = if code c == b'#' then s else String.◌∷◌ c s

-- `pathPart.replace(/^#/, '').split('/').filter(Boolean)`
unfoldable pub path_segments : String → List String
unfolding split
path_segments path = keep (λ s. not (is_empty s)) (split b'/' (without_hash path))

-- `pathSegments[1]`, where the first segment is the page's
abbrev pub token_segment : String → List String → Option String
token_segment page (a ∷ b ∷ rest) = if a == page then some b else none
token_segment page _ = none

abbrev pub or_query : Option String → Option String → Option String
or_query (some t) in_query = some t
or_query none in_query = in_query

-- `[pathPart, query] = hash.split('?')`
abbrev pub token_of : (String → Option String) → String → List String → Option String
token_of query_token page [] = query_token ""
token_of query_token page (path ∷ rest) =
    or_query (token_segment page (path_segments path))
      (query_token (or_default (get_elem? rest 0) ""))

-- `extractToken`; `page` is the name of the page in the hash.
unfoldable pub extract_token : (String → Option String) → String → String → Option String
unfolding split path_segments
extract_token query_token page hash = token_of query_token page (split b'?' hash)

-- the state of such a form
pub record TokenForm : Type 0 where
  pub password : String
  pub confirm_password : String
  pub loading : Bool
  pub message : Option String

-- `submit` of the two pages up to the request: is it sent?
unfoldable pub token_submit_start : Option String → TokenForm → TokenForm × Option String
token_submit_start none form = (form, none)
token_submit_start (some token) form =
    if is_empty token
    then (form, none)
    else if not (form.password == form.confirm_password)
    then (record form { message = some "Passwords must match." }, none)
    else (record form { message = none; loading = true }, some token)

-- The rest of it: a failure is told in the server's words, or in the page's; a success leads to the login.
unfoldable pub token_submit_finish :
    (failed done : String) → Option String → Visit → TokenForm → Visit × TokenForm
token_submit_finish failed done none w form =
    (go "#/login" w, record form { message = some done; loading = false })
token_submit_finish failed done (some e) w form =
    (w, record form { message = some (or_text e failed); loading = false })

abbrev pub reset_finish : Option String → Visit → TokenForm → Visit × TokenForm
reset_finish = token_submit_finish "Reset failed" "Password updated. You can log in now."

abbrev pub invite_finish : Option String → Visit → TokenForm → Visit × TokenForm
invite_finish =
    token_submit_finish "Invite acceptance failed" "Account created. You can log in now."

-- ForgotPasswordPage says the same whether there is such an account or not.
pub record ForgotForm : Type 0 where
  pub username : String
  pub email : String
  pub loading : Bool
  pub message : Option String

unfoldable pub forgot_start : ForgotForm → ForgotForm × List (String × String)
forgot_start form = (
  record form { message = none; loading = true },
  ("username", form.username) ∷ ("email", form.email) ∷ [],
)

-- the error as the page throws it: `text || 'Reset request failed'`, or the one of the network
unfoldable pub forgot_finish : Option String → ForgotForm → ForgotForm
forgot_finish none form = record form {
  message = some "If an account exists, a reset link has been sent to the email provided.";
  loading = false;
}
forgot_finish (some e) form = record form { message = some (or_text e "Error"); loading = false }
