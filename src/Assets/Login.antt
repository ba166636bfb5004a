-- ===== src/Assets/Login.antt =====
-- What a user may do with the assets after a login (auth.tsx, AssetsPage.tsx).
use bv_orchestrator.Json.{Json, obj, Props, get, truthy?, truthy, to_text}
use bv_orchestrator.Storage.{text, json, Storage, get_item, set_item, get_item-set_item}
use bv_orchestrator.Session.{permissions_of, persist_user, persist_auth}
use bv_orchestrator.Session.Laws.{get_item-persist_auth}
use bv_orchestrator.Assets.Page.{all_granted, grants_of, grants}
use bv_orchestrator.Common.{
  nat_eq, string_eq, if◌then◌else◌, String, ◌≡◌, refl, true, is_empty, Option, none, some, arith,
}

-- The user is stored, whatever the name is.
get_user-persist_user :
    (user : Json) (m : Storage)
    → truthy user ≡ true
    → get_item "currentUser" (persist_user (some user) m) ≡ some (json user)
get_user-persist_user user m h = rw (h) (go (get "username" user))
  where
    m' : Storage
    m' = set_item "currentUser" (json user) m

    here : get_item "currentUser" m' ≡ some (json user)
    here = get_item-set_item "currentUser" "currentUser" (json user) m

    go :
        (name : Option Json)
        → get_item "currentUser" (elim name [
          | none ↦ m'
          | some v ↦ if truthy v then set_item "username" (text (to_text v)) m' else m'
        ])
          ≡ some (json user)
    go none = here
    go (some v) =
        ground (arith, here, get_item-set_item "currentUser" "username" (text (to_text v)) m')

-- After a login with a user and a set of permissions, the page of the assets, opened on the storage that the login
-- leaves, lets an administrator do everything and any other user what the permissions say, whatever was
-- stored before; where the token of the login is empty, it goes to "#/" and leaves everything granted.
pub grants_after_login :
    (parse : String → Option Json) (token : String) (me user : Json) (perms : Props) (m : Storage)
    → get "user" me ≡ some user
    → truthy user ≡ true
    → permissions_of (some me) ≡ some (obj perms)
    → grants parse (persist_auth token (some me) m) ≡ (
        if is_empty token then (some "#/", all_granted) else (
          none,
          if truthy? (get "is_admin" user) then all_granted else record {
            can_create = truthy? (get "assets:create" (obj perms));
            can_edit = truthy? (get "assets:edit" (obj perms));
            can_delete = truthy? (get "assets:delete" (obj perms));
          },
        ))
unfolding grants grants_of persist_auth
grants_after_login parse token me user perms m is_user set permitted =
    let stored = persist_user (some user) (set_item "token" (text token) m) in
    let user_read = get_item-set_item "currentUser" "permissions" (json (obj perms)) stored in
    let perms_read = get_item-set_item "permissions" "permissions" (json (obj perms)) stored in
    rw
      (
        get_item-persist_auth token (some me) m,
        is_user,
        permitted,
        user_read,
        get_user-persist_user user (set_item "token" (text token) m) set,
        perms_read,
      )
      refl
