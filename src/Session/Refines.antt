-- ===== src/Session/Refines.antt =====
-- auth.tsx by what a user sees of it: signed in, signed out, or in between, with the token of the
-- state and the token that a reload would find. The user, the permissions, the other items of
-- localStorage and the hash are forgotten.
use bv_orchestrator.Json.{Json}
use bv_orchestrator.Storage.{text, Item, get_item, get_item-remove_item}
use bv_orchestrator.Route.{AuthStatus, loading, authenticated, unauthenticated}
use bv_orchestrator.Session.{
  Session, clear_auth_storage, set_authenticated_session, logout, Reply, network_error, reply,
  token_text, refresh_start, intercept, is_ok, refresh_finish, refresh_reply, Event, session_set,
  logged_out, refresh_started, refresh_replied, fetched, step, run,
}
use bv_orchestrator.Session.Laws.{get_item-persist_auth}
use bv_orchestrator.Common.{
  ◌==◌, nat_eq, string_eq, if◌then◌else◌, Bool-cases, is_empty, includes, String, ◌≡◌, refl, ap,
  ◌∙◌, inl, inr, ◌&&◌, Option, none, some, List, [], ◌∷◌,
}

-- What is left of a session.
pub record Account : Type 0 where
  pub status : AuthStatus
  pub token : Option String
  pub stored : Option Item

-- no session at all
abbrev pub signed_out : Account
signed_out = record { status = unauthenticated; token = none; stored = none }

-- a session with the token `t`, in the state as in localStorage
abbrev pub signed_in : String → Account
signed_in t = record { status = authenticated; token = some t; stored = some (text t) }

-- A refresh has a token to send, or is the end of the session.
abbrev pub check_stored : Account → Account
check_stored a =
    if is_empty (token_text a.stored) then signed_out else record a { status = loading }

-- the verdict of the server on the token that was sent
abbrev pub verdict : String → Reply → Account
verdict t network_error = signed_out
verdict t (reply status none) = signed_out
verdict t (reply status (some me)) = if is_ok status then signed_in t else signed_out

-- An answer of 401 to a question about the session ends it; every other answer is not its business.
abbrev pub overheard : String → Reply → Account → Account
overheard url network_error a = a
overheard url (reply status body) a =
    if status == 401 && includes url "/api/auth/me" then signed_out else a

unfoldable pub next : Account → Event → Account
next a (session_set t me) = signed_in t
next a logged_out = signed_out
next a refresh_started = check_stored a
next a (refresh_replied t r) = verdict t r
next a (fetched url r) = overheard url r a

unfoldable pub follow : Account → List Event → Account
unfolding next
follow a [] = a
follow a (e ∷ es) = follow (next a e) es

unfoldable pub account : Session → Account
account s = record { status = s.status; token = s.token; stored = get_item "token" s.local }

account_of_logout : (s : Session) → account (logout s) ≡ signed_out
unfolding account logout clear_auth_storage
account_of_logout s = simp get_item-remove_item

account_of_session_set :
    (t : String) (me : Option Json) (s : Session)
    → account (set_authenticated_session t me s) ≡ signed_in t
unfolding account set_authenticated_session
account_of_session_set t me s = rw (get_item-persist_auth t me s.local)

account_of_refresh_finish :
    (t : String) (r : Reply) (s : Session) → account (refresh_finish t r s) ≡ verdict t r
unfolding refresh_finish
account_of_refresh_finish t network_error s = account_of_logout s
account_of_refresh_finish t (reply status none) s = account_of_logout s
account_of_refresh_finish t (reply status (some me)) s = elim (Bool-cases (is_ok status)) [
  | inl good ↦ rw good (account_of_session_set t (some me) s)
  | inr bad ↦ rw bad (account_of_logout s)
]

account_of_refresh_start : (s : Session) → account (refresh_start s).0 ≡ check_stored (account s)
unfolding account refresh_start
account_of_refresh_start s = elim (Bool-cases (is_empty (token_text (get_item "token" s.local)))) [
  | inl empty ↦ rw empty (account_of_logout s)
  | inr present ↦ rw present
]

account_of_intercept :
    (url : String) (r : Reply) (s : Session)
    → account (intercept url r s) ≡ overheard url r (account s)
unfolding account intercept
account_of_intercept url network_error s = refl
account_of_intercept url (reply status body) s =
    elim (Bool-cases (status == 401 && includes url "/api/auth/me")) [
      | inl out ↦ rw out (account_of_logout s)
      | inr other ↦ rw other
    ]

account_of_step : (s : Session) (e : Event) → account (step s e) ≡ next (account s) e
unfolding step next refresh_reply
account_of_step s (session_set t me) = account_of_session_set t me s
account_of_step s logged_out = account_of_logout s
account_of_step s refresh_started = account_of_refresh_start s
account_of_step s (refresh_replied t r) = account_of_refresh_finish t r _
account_of_step s (fetched url r) = account_of_intercept url r s

-- Any run of the provider, from any state, shows what the same events do to the account alone: users,
-- permissions and whatever else localStorage holds have no part in whether there is a session.
pub run-refines : (es : List Event) (s : Session) → account (run s es) ≡ follow (account s) es
unfolding run follow
run-refines [] s = refl
run-refines (e ∷ es) s = run-refines es (step s e) ∙ ap (λ a. follow a es) (account_of_step s e)
