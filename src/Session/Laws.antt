-- ===== src/Session/Laws.antt =====
-- What auth.tsx keeps true of the provider's state and of localStorage.
use bv_orchestrator.Json.{Json, obj, end, get, get?, truthy, to_text}
use bv_orchestrator.Storage.{
  text, json, Storage, get_item, set_item, get_item-set_item, get_item-remove_item,
}
use bv_orchestrator.Route.{authenticated, unauthenticated}
use bv_orchestrator.Session.{
  Session, permissions_of, as_object, persist_user, persist_permissions, persist_auth,
  clear_auth_storage, set_authenticated_session, logout, Reply, network_error, reply, token_text,
  refresh_start, intercept, is_ok, refresh_finish, refresh_reply, Event, session_set, logged_out,
  refresh_started, refresh_replied, fetched, step, run, initial,
}
use bv_orchestrator.Common.{
  ◌==◌, nat_eq, string_eq, if◌then◌else◌, Bool-cases, is_empty, includes, String, ◌≡◌, refl, ◌∙◌,
  inl, inr, ◌&&◌, Option, none, some, List, [], ◌∷◌, arith,
}

-- What a storage holds under the three keys of a session after `clear_auth_storage`.
abbrev pub IsCleared : Storage → Type 0
IsCleared m =
    (get_item "token" m ≡ none)
    × (get_item "currentUser" m ≡ none)
    × (get_item "permissions" m ≡ none)

-- The state and localStorage agree on whether there is a session, and on its token.
pub record IsCoherent (s : Session) : Type 0 where
  pub signed_in :
      s.status ≡ authenticated
      → (t : String) × (s.token ≡ some t) × (get_item "token" s.local ≡ some (text t))
  pub signed_out :
      s.status ≡ unauthenticated
      → (s.token ≡ none) × (s.user ≡ none) × (s.permissions ≡ obj end) × IsCleared s.local

get_item-persist_permissions :
    (o : Option Json) (m : Storage)
    → get_item "token" (persist_permissions o m) ≡ get_item "token" m
get_item-persist_permissions none m = refl
get_item-persist_permissions (some perms) m = get_item-set_item "token" "permissions" (json perms) m

get_item-persist_user :
    (o : Option Json) (m : Storage) → get_item "token" (persist_user o m) ≡ get_item "token" m
get_item-persist_user none m = refl
get_item-persist_user (some user) m = elim (Bool-cases (truthy user)) [
  | inr no_user ↦ rw no_user
  | inl is_user ↦ rw is_user (go (get "username" user))
]
  where
    m' : Storage
    m' = set_item "currentUser" (json user) m

    kept : get_item "token" m' ≡ get_item "token" m
    kept = get_item-set_item "token" "currentUser" (json user) m

    go :
        (name : Option Json)
        → get_item "token" (elim name [
          | none ↦ m'
          | some v ↦ if truthy v then set_item "username" (text (to_text v)) m' else m'
        ])
          ≡ get_item "token" m
    go none = kept
    go (some v) = ground (arith, kept, get_item-set_item "token" "username" (text (to_text v)) m')

-- The token that is persisted is the token that is read.
pub get_item-persist_auth :
    (token : String) (me : Option Json) (m : Storage)
    → get_item "token" (persist_auth token me m) ≡ some (text token)
unfolding persist_auth
get_item-persist_auth token me m =
    get_item-persist_permissions (as_object (permissions_of me)) _
    ∙ (get_item-persist_user (get? "user" me) _ ∙ get_item-set_item "token" "token" (text token) m)

clear_auth_storage-IsCleared : (m : Storage) → IsCleared (clear_auth_storage m)
unfolding clear_auth_storage
clear_auth_storage-IsCleared m =
    (simp get_item-remove_item, simp get_item-remove_item, simp get_item-remove_item)

set_authenticated_session-IsCoherent :
    (token : String) (me : Option Json) (s : Session)
    → IsCoherent (set_authenticated_session token me s)
unfolding set_authenticated_session
set_authenticated_session-IsCoherent token me s = record {
  signed_in = λ e. (token, refl, get_item-persist_auth token me s.local);
  signed_out = λ e. cc;
}

logout-IsCoherent : (s : Session) → IsCoherent (logout s)
unfolding logout
logout-IsCoherent s = record {
  signed_in = λ e. cc;
  signed_out = λ e. (refl, refl, refl, clear_auth_storage-IsCleared s.local);
}

refresh_finish-IsCoherent :
    (stored : String) (r : Reply) (s : Session) → IsCoherent (refresh_finish stored r s)
unfolding refresh_finish
refresh_finish-IsCoherent stored network_error s = logout-IsCoherent s
refresh_finish-IsCoherent stored (reply status none) s = logout-IsCoherent s
refresh_finish-IsCoherent stored (reply status (some me)) s = elim (Bool-cases (is_ok status)) [
  | inl good ↦ rw good (set_authenticated_session-IsCoherent stored (some me) s)
  | inr bad ↦ rw bad (logout-IsCoherent s)
]

intercept-IsCoherent :
    (url : String) (r : Reply) (s : Session) → IsCoherent s → IsCoherent (intercept url r s)
unfolding intercept
intercept-IsCoherent url network_error s h = h
intercept-IsCoherent url (reply status body) s h =
    elim (Bool-cases (status == 401 && includes url "/api/auth/me")) [
      | inl out ↦ rw out (record {
        signed_in = (logout-IsCoherent s).signed_in;
        signed_out = (logout-IsCoherent s).signed_out;
      })
      | inr other ↦ rw other h
    ]

refresh_start-IsCoherent : (s : Session) → IsCoherent s → IsCoherent (refresh_start s).0
unfolding refresh_start
refresh_start-IsCoherent s h =
    elim (Bool-cases (is_empty (token_text (get_item "token" s.local)))) [
      | inl empty ↦ rw empty (logout-IsCoherent s)
      | inr present ↦ rw present (record { signed_in = λ e. cc; signed_out = λ e. cc })
    ]

step-IsCoherent : (s : Session) (e : Event) → IsCoherent s → IsCoherent (step s e)
unfolding step refresh_reply
step-IsCoherent s (session_set token me) h = set_authenticated_session-IsCoherent token me s
step-IsCoherent s logged_out h = logout-IsCoherent s
step-IsCoherent s refresh_started h = refresh_start-IsCoherent s h
step-IsCoherent s (refresh_replied stored r) h = refresh_finish-IsCoherent stored r _
step-IsCoherent s (fetched url r) h = intercept-IsCoherent url r s h

run_from-IsCoherent : (s : Session) (es : List Event) → IsCoherent s → IsCoherent (run s es)
unfolding run
run_from-IsCoherent s [] h = h
run_from-IsCoherent s (e ∷ es) h = run_from-IsCoherent (step s e) es (step-IsCoherent s e h)

-- Whatever localStorage holds when the page is loaded, and whatever logins, logouts, refreshes and
-- answers of the server follow in whatever order: the state says `authenticated` only with a token
-- that is the one in localStorage, and `unauthenticated` only with no token, user or permissions
-- in the state and none of the three in localStorage.
pub run-IsCoherent :
    (m : Storage) (hash : String) (es : List Event) → IsCoherent (run (initial m hash) es)
unfolding initial
run-IsCoherent m hash es =
    run_from-IsCoherent _ es (record { signed_in = λ e. cc; signed_out = λ e. cc })
