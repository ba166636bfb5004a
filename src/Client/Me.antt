-- ===== src/Client/Me.antt =====
-- api/me.ts: the calls for the user's own account. The parameter `parse` is JSON.parse.
use bv_orchestrator.Client.Decode.{of_object, mapped, else_null, token_version_of}
use bv_orchestrator.Json.{Json, str, arr, obj, nil, prop, end, get, coalesce, truthy?}
use bv_orchestrator.Queries.{Params}
use bv_orchestrator.Common.Number.{Number}
use bv_orchestrator.Client.{
  file_body, Call, with_json, without_body, with_body, given_prop, read_with,
}
use bv_orchestrator.Common.{
  nat_eq, string_eq, if◌then◌else◌, or_default, ◌+++◌, is_empty, or_text, String, ◌⊎◌, inl, inr,
  Bool, Option, none, some, List, [], ◌∷◌,
}

-- The profile and the sessions as the page has them; a value that may be undefined is an option.
pub record ProfileView : Type 0 where
  pub id : Option Json
  pub username : Option Json
  pub email : Json
  pub display_name : Json
  pub is_admin : Bool
  pub status : Json
  pub locked_until : Json
  pub last_login : Json
  pub preferences : Json
  pub roles : Json
  pub token_version : Number
  pub timezone : Json
  pub avatar_url : Json
  pub avatar_updated_at : Json

-- `v || d`
abbrev or_value : Option Json → Json → Json
or_value none d = d
or_value (some v) d = if truthy? (some v) then v else d

abbrev array_or_empty : Option Json → Json
array_or_empty (some (arr vs)) = arr vs
array_or_empty _ = arr nil

-- `toProfile`, of an object
unfoldable pub profile_view : Json → ProfileView
profile_view raw = record {
  id = get "id" raw;
  username = get "username" raw;
  email = else_null (get "email" raw);
  display_name = else_null (coalesce (get "display_name" raw) (get "full_name" raw));
  is_admin = truthy? (get "is_admin" raw);
  status = or_value (get "status" raw) (str "active");
  locked_until = else_null (get "locked_until" raw);
  last_login = else_null (get "last_login" raw);
  preferences = or_value (get "preferences" raw) (obj end);
  roles = array_or_empty (get "roles" raw);
  token_version = token_version_of (get "token_version" raw) (get "tokenVersion" raw);
  timezone = else_null (get "timezone" raw);
  avatar_url = else_null (coalesce (get "avatar_url" raw) (get "avatarUrl" raw));
  avatar_updated_at =
      else_null (coalesce (get "avatar_updated_at" raw) (get "avatarUpdatedAt" raw));
}

unfoldable pub to_profile : Json → String ⊎ ProfileView
unfolding profile_view
to_profile v = of_object (λ raw. inr (profile_view raw)) v

-- what a change of the password, or of the other sessions, gives
pub record NewToken : Type 0 where
  pub access_token : Option Json
  pub token_version : Number

abbrev pub new_token : Json → String ⊎ NewToken
new_token v =
    of_object
      (λ d. inr (record {
        access_token = get "access_token" d;
        token_version = token_version_of (get "token_version" d) (get "tokenVersion" d);
      }))
      v

pub record SessionView : Type 0 where
  pub id : Option Json
  pub label : Option Json
  pub current : Bool
  pub last_active : Json

abbrev session_view : Json → String ⊎ SessionView
session_view v =
    of_object
      (λ s. inr (record {
        id = get "id" s;
        label = coalesce (get "label" s) (get "id" s);
        current = truthy? (get "current" s);
        last_active = else_null (coalesce (get "last_active" s) (get "lastActive" s));
      }))
      v

abbrev sessions_of : Option Json → String ⊎ List SessionView
sessions_of (some (arr vs)) = mapped session_view (arr vs)
sessions_of _ = inr []

pub record SessionList : Type 0 where
  pub token_version : Number
  pub last_login : Json
  pub sessions : List SessionView

abbrev list_with : Json → String ⊎ List SessionView → String ⊎ SessionList
list_with d (inl e) = inl e
list_with d (inr ss) = inr (record {
  token_version = token_version_of (get "token_version" d) (get "tokenVersion" d);
  last_login = else_null (get "last_login" d);
  sessions = ss;
})

abbrev pub session_list : Json → String ⊎ SessionList
session_list v = of_object (λ d. list_with d (sessions_of (get "sessions" d))) v

-- `authHeaders`; an explicit token that is missing is ""
unfoldable pub optional_headers : String → Option String → Params
optional_headers explicit token =
    let t = or_text explicit (or_default token "") in
    if is_empty t then [] else ("Authorization", "Bearer " +++ t) ∷ []

-- the body of `updateMyProfile`
abbrev pub profile_changes : Json → Json
profile_changes payload = obj (
    given_prop "display_name" (get "displayName" payload)
      (given_prop "preferences" (get "preferences" payload) end))

abbrev pub password_change : String → String → Json
password_change current next =
    obj (prop "current_password" (str current) (prop "new_password" (str next) end))

module _ (parse : String → String ⊎ Json) (token : Option String) where
  -- `fetchAuthMe`, with a token or ""
  unfoldable pub fetch_auth_me : String → Call Json
  unfolding optional_headers
  fetch_auth_me explicit = record {
    request = inr (without_body "GET" "/api/auth/me" [] (optional_headers explicit token));
    receive = read_with parse (λ t. t) (λ v. inr v);
  }

  unfoldable pub fetch_my_profile : Call ProfileView
  unfolding optional_headers to_profile
  fetch_my_profile = record {
    request = inr (without_body "GET" "/api/me" [] (optional_headers "" token));
    receive = read_with parse (λ t. t) to_profile;
  }

  unfoldable pub update_my_profile : Json → Call ProfileView
  unfolding optional_headers to_profile
  update_my_profile payload = record {
    request = inr (
        with_body "PUT" "/api/me" (profile_changes payload)
          (with_json (optional_headers "" token)));
    receive = read_with parse (λ t. t) to_profile;
  }

  unfoldable pub change_my_password : String → String → Call NewToken
  unfolding optional_headers
  change_my_password current next = record {
    request = inr (
        with_body "POST" "/api/me/change-password" (password_change current next)
          (with_json (optional_headers "" token)));
    receive = read_with parse (λ t. t) new_token;
  }

  unfoldable pub list_my_sessions : Call SessionList
  unfolding optional_headers
  list_my_sessions = record {
    request = inr (without_body "GET" "/api/me/sessions" [] (optional_headers "" token));
    receive = read_with parse (λ t. t) session_list;
  }

  unfoldable pub logout_other_sessions : Call NewToken
  unfolding optional_headers
  logout_other_sessions = record {
    request = inr (without_body "POST" "/api/me/logout-others" [] (optional_headers "" token));
    receive = read_with parse (λ t. t) new_token;
  }

  -- `uploadMyAvatar`, of the file of that name
  unfoldable pub upload_my_avatar : String → Call ProfileView
  unfolding optional_headers to_profile
  upload_my_avatar file = record {
    request = inr (record (without_body "POST" "/api/me/avatar" [] (optional_headers "" token)) {
      body = file_body file;
    });
    receive = read_with parse (λ t. t) to_profile;
  }

  unfoldable pub delete_my_avatar : Call ProfileView
  unfolding optional_headers to_profile
  delete_my_avatar = record {
    request = inr (without_body "DELETE" "/api/me/avatar" [] (optional_headers "" token));
    receive = read_with parse (λ t. t) to_profile;
  }
