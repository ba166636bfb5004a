-- ===== src/Account.antt =====
-- MyAccountPage.tsx: the account of the user, its password, its other sessions and its picture.
pub mod Laws
pub mod Tests
use bv_orchestrator.Json.{obj, null, Json, str, end, prop, Props, prop_of}
use bv_orchestrator.Json.Case.{set_prop}
use bv_orchestrator.Storage.{json, text, set_item, Storage}
use bv_orchestrator.Session.{Session, set_authenticated_session}
use bv_orchestrator.Common.{
  ltb, ◌==◌, nat_eq, string_eq, if◌then◌else◌, has, is_empty, or_text, trim, includes, ℕ, String,
  Bool, true, false, not, Option, none, some, List, [], ◌∷◌,
}

pub data TabKey : Type 0 where
  account security : TabKey

-- `tabFromHash(window.location.hash || '#/me/account')`
unfoldable pub tab_from_hash : String → TabKey
tab_from_hash hash =
    if includes (or_text hash "#/me/account") "/security" then security else account

abbrev pub hash_of_tab : TabKey → String
hash_of_tab security = "#/me/security"
hash_of_tab account = "#/me/account"

pub record MyProfile : Type 0 where
  pub id : Json
  pub username : String
  pub display_name : Option String
  pub avatar_url : Option String
  pub last_login : Option String
  pub preferences : Props

-- The state of the page; `said` are the titles of its toasts and alerts, the newest first.
pub record Account : Type 0 where
  pub profile : Option MyProfile
  pub active_tab : TabKey
  pub display_name : String
  pub timezone_pref : String
  pub current_password : String
  pub new_password : String
  pub confirm_password : String
  pub last_login : Option String
  pub avatar_error : String
  pub said : List String

abbrev pub say : String → Account → Account
say title a = record a { said = title ∷ a.said }

-- `goTab`: the hash, and the page
abbrev pub go_tab : TabKey → Account → String × Account
go_tab tab a = (hash_of_tab tab, record a { active_tab = tab })

-- `delete prefs[k]`
unfoldable pub delete_prop : String → Props → Props
delete_prop k end = end
delete_prop k (prop j v ps) = let rest = delete_prop k ps in if j == k then rest else prop j v rest

abbrev pub preferences_of : Option MyProfile → Props
preferences_of none = end
preferences_of (some p) = p.preferences

-- The preferences that `handleSaveProfile` sends.
unfoldable pub saved_preferences : Account → Props
unfolding trim set_prop delete_prop
saved_preferences a =
    if is_empty (trim a.timezone_pref)
    then delete_prop "timezone" (preferences_of a.profile)
    else set_prop "timezone" (str (trim a.timezone_pref)) (preferences_of a.profile)

-- what a request comes to: a value, or the message of its error
pub data Got {ℓ} (A : Type ℓ) : Type ℓ where
  got : A → Got A
  failed : (message : String) → Got A

abbrev timezone_of : Option Json → String
timezone_of (some (str tz)) = tz
timezone_of _ = ""

-- The rest of `handleSaveProfile`; a timezone is a text.
unfoldable pub save_profile_finish : Got MyProfile → Account → Account
save_profile_finish (got p) a =
    say "Profile updated" (record a {
      profile = some p;
      timezone_pref = timezone_of (prop_of "timezone" p.preferences);
    })
save_profile_finish (failed e) a = say "Save failed" a

pub record PasswordChange : Type 0 where
  pub current_password : String
  pub new_password : String

-- `handleChangePassword` up to its request
unfoldable pub change_password_start : Account → Account × Option PasswordChange
unfolding trim
change_password_start a =
    if is_empty (trim a.current_password)
    then (say "Current password required" a, none)
    else if is_empty (trim a.new_password)
    then (say "New password required" a, none)
    else if not (a.new_password == a.confirm_password)
    then (say "Passwords do not match" a, none)
    else (a, some (record { current_password = a.current_password; new_password = a.new_password }))

-- The rest of it, at the new token and at what `/api/auth/me` answers to it, which is asked for only with
-- a new token.
unfoldable pub change_password_finish :
    Got String → Got Json → Session → Account → Session × Account
unfolding set_authenticated_session
change_password_finish (failed e) me s a = (s, say "Password change failed" a)
change_password_finish (got token) (failed e) s a = (s, say "Password change failed" a)
change_password_finish (got token) (got me) s a = (
  set_authenticated_session token (some me) s,
  say "Password changed"
      (record a { current_password = ""; new_password = ""; confirm_password = "" }),
)

-- `handleLogoutOthers`, with the last login of the list of sessions, if it comes
unfoldable pub logout_others :
    Got String → Got Json → Got (Option String) → Session → Account → Session × Account
unfolding set_authenticated_session
logout_others (failed e) me list s a = (s, say "Action failed" a)
logout_others (got token) (failed e) list s a = (s, say "Action failed" a)
logout_others (got token) (got me) (failed e) s a =
    (set_authenticated_session token (some me) s, say "Action failed" a)
logout_others (got token) (got me) (got last_login) s a = (
  set_authenticated_session token (some me) s,
  say "Other sessions logged out" (record a { last_login = last_login_of last_login a.profile }),
)
  where
    given : Option String → Option String
    given none = none
    given (some t) = if is_empty t then none else some t

    -- `sess.lastLogin || profile?.lastLogin || null`
    last_login_of : Option String → Option MyProfile → Option String
    last_login_of none none = none
    last_login_of none (some p) = given p.last_login
    last_login_of (some t) none = given (some t)
    last_login_of (some t) (some p) = if is_empty t then given p.last_login else some t

abbrev pub text_or_null : Option String → Json
text_or_null none = null
text_or_null (some s) = str s

-- `persistProfileLocally`
unfoldable pub persist_profile_locally : MyProfile → Storage → Storage
persist_profile_locally p m =
    let user : Json = obj (
      prop "id" p.id (
        prop "username" (str p.username) (
          prop "display_name" (text_or_null p.display_name) (
            prop "full_name" (text_or_null p.display_name) (
              prop "avatar_url" (text_or_null p.avatar_url)
                (prop "avatarUrl" (text_or_null p.avatar_url) end)))))) in
    let m' = set_item "currentUser" (json user) m in
    if is_empty p.username then m' else set_item "username" (text p.username) m'

-- a file that is picked
pub record File : Type 0 where
  pub type : String
  pub size : ℕ

-- `handleAvatarSelect` up to its request: is the picture sent?
unfoldable pub avatar_select_start : Option File → Account → Account × Bool
avatar_select_start none a = (a, false)
avatar_select_start (some f) a =
    if not (has f.type ("image/png" ∷ "image/jpeg" ∷ "image/jpg" ∷ []))
    then (record a { avatar_error = "Only PNG or JPG images are supported" }, false)
    else if ltb 2097152 f.size
    then (record a { avatar_error = "Max file size is 2MB" }, false)
    else (record a { avatar_error = "" }, true)

-- The rest of it, and of `handleAvatarRemove`, which differ in what they say of an error without a message;
-- the provider's `refresh` follows a success.
unfoldable pub avatar_finish : String → Got MyProfile → Storage → Account → Storage × Account
unfolding persist_profile_locally
avatar_finish otherwise (got p) m a = (persist_profile_locally p m, record a { profile = some p })
avatar_finish otherwise (failed e) m a = (m, record a { avatar_error = or_text e otherwise })
