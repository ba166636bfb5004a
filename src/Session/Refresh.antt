-- ===== src/Session/Refresh.antt =====
-- `refresh` of auth.tsx: what it comes to, and that a session survives a reload of the page.
use bv_orchestrator.Json.{Json, get, get?, truthy, to_text}
use bv_orchestrator.Storage.{
  text, json, Storage, get_item, set_item, get_item-set_item, set_item-get_item,
}
use bv_orchestrator.Route.{authenticated, unauthenticated}
use bv_orchestrator.Session.{
  Session, permissions_of, as_object, persist_user, persist_permissions, persist_auth,
  set_authenticated_session, Reply, network_error, reply, refresh_start, intercept, is_ok,
  refresh_finish, refresh_reply, initial,
}
use bv_orchestrator.Session.Laws.{get_item-persist_auth}
use bv_orchestrator.Common.{
  ◌==◌, nat_eq, string_eq, if◌then◌else◌, Bool-cases, is_empty, ℕ, String, ◌≡◌, refl, ap, ◌∙◌, ◌⊎◌,
  inl, inr, true, false, Option, none, some, arith,
}

-- The answer that lets a user in.
abbrev pub IsAccepted : Reply → Type 0
IsAccepted network_error = ⊥
IsAccepted (reply status none) = ⊥
IsAccepted (reply status (some me)) = is_ok status ≡ true

-- A refresh ends authenticated exactly when the server answers with a status of 200 to 299 and a body;
-- then the token is the one that was sent, and otherwise the session is over.
pub refresh_reply_outcome :
    (stored : String) (r : Reply) (s : Session)
    → (IsAccepted r
        × ((refresh_reply stored r s).status ≡ authenticated)
        × ((refresh_reply stored r s).token ≡ some stored))
      ⊎ ((¬ IsAccepted r)
          × ((refresh_reply stored r s).status ≡ unauthenticated)
          × ((refresh_reply stored r s).token ≡ none))
unfolding refresh_reply
refresh_reply_outcome stored network_error s = inr (λ h. h, refl, refl)
refresh_reply_outcome stored (reply status none) s = inr (λ h. h, refl, refl)
refresh_reply_outcome stored (reply status (some me)) s = elim (Bool-cases (is_ok status)) [
  | inl good ↦ inl (good, rw good, rw good)
  | inr bad ↦ inr (λ h. cc, rw bad, rw bad)
]

-- The writes of one session, done again, change nothing.
persist_permissions_idem :
    (o : Option Json) (m : Storage)
    → persist_permissions o (persist_permissions o m) ≡ persist_permissions o m
persist_permissions_idem none m = refl
persist_permissions_idem (some perms) m =
    set_item-get_item "permissions" (json perms) _
      (get_item-set_item "permissions" "permissions" (json perms) m)

-- A storage that already holds what a session persists.
IsPersisted : String → Option Json → Storage → Type 0
IsPersisted token me m =
    (get_item "token" m ≡ some (text token))
    × (persist_user (get? "user" me) m ≡ m)
    × (persist_permissions (as_object (permissions_of me)) m ≡ m)

persist_auth_of_IsPersisted :
    (token : String) (me : Option Json) (m : Storage)
    → IsPersisted token me m
    → persist_auth token me m ≡ m
unfolding persist_auth IsPersisted
persist_auth_of_IsPersisted token me m (t, u, p) =
    rw (set_item-get_item "token" (text token) m t, u, p)

abbrev HasName : Option Json → Storage → Type 0
HasName none m = Unit {0}
HasName (some name) m = truthy name ≡ true → get_item "username" m ≡ some (text (to_text name))

-- The user is stored, and so is the name, where they are set.
abbrev HasUser : Option Json → Storage → Type 0
HasUser none m = Unit {0}
HasUser (some user) m =
    truthy user ≡ true
    → (get_item "currentUser" m ≡ some (json user)) × HasName (get "username" user) m

abbrev persist_name : Option Json → Storage → Storage
persist_name none m = m
persist_name (some name) m = if truthy name then set_item "username" (text (to_text name)) m else m

persist_name_of_HasName : (o : Option Json) (m : Storage) → HasName o m → persist_name o m ≡ m
persist_name_of_HasName none m h = refl
persist_name_of_HasName (some name) m h = elim (Bool-cases (truthy name)) [
  | inl set ↦ rw set (set_item-get_item "username" _ m (h set))
  | inr unset ↦ rw unset
]

HasName-persist_name : (o : Option Json) (m : Storage) → HasName o (persist_name o m)
HasName-persist_name none m = tt
HasName-persist_name (some name) m = λ set. rw set (get_item-set_item "username" "username" _ m)

get_item-persist_name :
    (o : Option Json) (k : String) (m : Storage)
    → ("username" == k) ≡ false
    → get_item k (persist_name o m) ≡ get_item k m
get_item-persist_name none k m h = refl
get_item-persist_name (some name) k m h =
    ground (arith, get_item-set_item k "username" (text (to_text name)) m)

persist_user_lem :
    (user : Json) (m : Storage)
    → persist_user (some user) m ≡ (
        if truthy user
        then persist_name (get "username" user) (set_item "currentUser" (json user) m)
        else m)
persist_user_lem user m = go (get "username" user)
  where
    m' : Storage
    m' = set_item "currentUser" (json user) m

    go :
        (o : Option Json)
        → (if truthy user
            then (elim o [
              | none ↦ m'
              | some name ↦ if truthy name then set_item "username" (text (to_text name)) m' else m'
            ])
            else m)
          ≡ (if truthy user then persist_name o m' else m)
    go none = refl
    go (some name) = refl

persist_user_of_HasUser : (o : Option Json) (m : Storage) → HasUser o m → persist_user o m ≡ m
persist_user_of_HasUser none m h = refl
persist_user_of_HasUser (some user) m h = elim (Bool-cases (truthy user)) [
  | inr unset ↦ persist_user_lem user m ∙ rw unset
  | inl set ↦
      persist_user_lem user m
      ∙ rw (set, set_item-get_item "currentUser" (json user) m (h set).0)
          (persist_name_of_HasName (get "username" user) m (h set).1)
]

HasUser-persist_user : (o : Option Json) (m : Storage) → HasUser o (persist_user o m)
HasUser-persist_user none m = tt
HasUser-persist_user (some user) m = λ set.
    rw (persist_user_lem user m, set)
      (
        get_item-persist_name (get "username" user) "currentUser" _ refl
            ∙ get_item-set_item "currentUser" "currentUser" (json user) m,
        HasName-persist_name (get "username" user) _,
      )

HasName-persist_permissions :
    (o p : Option Json) (m : Storage) → HasName o m → HasName o (persist_permissions p m)
HasName-persist_permissions none p m h = tt
HasName-persist_permissions (some name) none m h = h
HasName-persist_permissions (some name) (some perms) m h =
    λ set. get_item-set_item "username" "permissions" (json perms) m ∙ h set

HasUser-persist_permissions :
    (o p : Option Json) (m : Storage) → HasUser o m → HasUser o (persist_permissions p m)
HasUser-persist_permissions none p m h = tt
HasUser-persist_permissions (some user) none m h = h
HasUser-persist_permissions (some user) (some perms) m h = λ set. (
  get_item-set_item "currentUser" "permissions" (json perms) m ∙ (h set).0,
  HasName-persist_permissions (get "username" user) (some perms) m (h set).1,
)

persist_auth-IsPersisted :
    (token : String) (me : Option Json) (m : Storage)
    → IsPersisted token me (persist_auth token me m)
unfolding IsPersisted
persist_auth-IsPersisted token me m = (
  get_item-persist_auth token me m,
  unfold persist_auth in
      persist_user_of_HasUser (get? "user" me) _ (
        HasUser-persist_permissions (get? "user" me) (as_object (permissions_of me)) _
          (HasUser-persist_user (get? "user" me) (set_item "token" (text token) m))),
  unfold persist_auth in persist_permissions_idem (as_object (permissions_of me)) _,
)

refresh_start_stored :
    (token : String) (m : Storage) (hash : String)
    → is_empty token ≡ false
    → get_item "token" m ≡ some (text token)
    → refresh_start (initial m hash) ≡ (initial m hash, some token)
unfolding refresh_start initial
refresh_start_stored token m hash h k = rw (k, h)

refresh_reply_accepted :
    (token : String) (me : Json) (status : ℕ) (s : Session)
    → is_ok status ≡ true
    → refresh_reply token (reply status (some me)) s ≡ set_authenticated_session token (some me) s
unfolding refresh_reply refresh_finish intercept
refresh_reply_accepted token me status s good =
    let not_401 : (status == 401) ≡ false = ground arith in rw (good, not_401)

-- A session survives a reload of the page: a provider that starts from the localStorage that a login
-- left sends the login's token, and with the same answer of the server it comes back to the same
-- state, and to the same localStorage.
pub refresh_after_reload :
    (token : String) (me : Json) (status : ℕ) (s : Session)
    → is_empty token ≡ false
    → is_ok status ≡ true
    → let signed_in = set_authenticated_session token (some me) s in
      let (started, sent) = refresh_start (initial signed_in.local signed_in.hash) in
      (sent ≡ some token) × (refresh_reply token (reply status (some me)) started ≡ signed_in)
unfolding set_authenticated_session initial
refresh_after_reload token me status s h good =
    let m : Storage = persist_auth token (some me) s.local in
    let started : refresh_start (initial m s.hash) ≡ (initial m s.hash, some token) =
      refresh_start_stored token m s.hash h (get_item-persist_auth token (some me) s.local) in
    let same : persist_auth token (some me) m ≡ m =
      persist_auth_of_IsPersisted token (some me) m
        (persist_auth-IsPersisted token (some me) s.local) in
    rw started (
      refl,
      refresh_reply_accepted token me status (initial m s.hash) good
          ∙ ap (λ (l : Storage). record (set_authenticated_session token (some me) s) { local = l })
              same,
    )
