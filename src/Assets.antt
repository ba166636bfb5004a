-- ===== src/Assets.antt =====
-- AssetsPage.tsx: the form of an asset, its check and what is sent of it; a description that is null
-- or missing is `none`.
pub mod Submit
pub mod Tests
pub mod Page
pub mod Login
use bv_orchestrator.Common.{
  ◌==◌, nat_eq, string_eq, if◌then◌else◌, is_empty, trim, is_digit, code, String, Bool, true, false,
  not, ◌&&◌, Option, none, some,
}

pub data AssetType : Type 0 where
  text int bool secret credential : AssetType

pub record FormValues : Type 0 where
  pub name : String
  pub type : AssetType
  pub value : String
  pub description : Option String
  pub cred_user : String
  pub cred_pass : String

abbrev all_digits : String → Bool
all_digits String.[] = true
all_digits (String.◌∷◌ c s) = is_digit (code c) && all_digits s

abbrev some_digits : String → Bool
some_digits String.[] = false
some_digits (String.◌∷◌ c s) = is_digit (code c) && all_digits s

-- `/^-?\d+$/.test(s)`
abbrev pub is_whole : String → Bool
is_whole String.[] = false
is_whole (String.◌∷◌ c s) = if code c == b'-' then some_digits s else some_digits (String.◌∷◌ c s)

-- `validateValue`
unfoldable pub validate_value : String → AssetType → Option String
unfolding trim
validate_value next int =
    if is_empty (trim next)
    then some "Value is required"
    else if not (is_whole (trim next))
    then some "Value must be a whole number"
    else none
validate_value next _ = none

pub record Form : Type 0 where
  pub form : FormValues
  pub error : Option String

-- `handleChange`, by the input's name
pub data Change : Type 0 where
  name_typed value_typed description_typed user_typed pass_typed : String → Change
  type_chosen : AssetType → Change

unfoldable pub handle_change : Change → Form → Form
unfolding validate_value
handle_change (name_typed s) f = record f { form = record f.form { name = s } }
handle_change (description_typed s) f = record f { form = record f.form { description = some s } }
handle_change (user_typed s) f = record f { form = record f.form { cred_user = s } }
handle_change (pass_typed s) f = record f { form = record f.form { cred_pass = s } }
handle_change (value_typed s) f = record {
  form = record f.form { value = s };
  error = validate_value s f.form.type;
}
handle_change (type_chosen t) f = record {
  form = record f.form { type = t; value = ""; cred_user = ""; cred_pass = "" };
  error = none;
}

-- `submit`: an alert, an error at the value, or the form is saved
pub data Submitted : Type 0 where
  alerted : String → Submitted
  refused : String → Submitted
  saved : FormValues → Submitted

-- The tests after the value's; a credential must have its password every time.
unfoldable pub submit_rest : AssetType → FormValues → Submitted
unfolding trim
submit_rest credential form =
    if is_empty (trim form.cred_user)
    then alerted "Username is required"
    else if is_empty (trim form.cred_pass)
    then alerted "Password is required"
    else saved form
submit_rest _ form = if is_empty (trim form.value) then alerted "Value is required" else saved form

unfoldable pub checked : Option String → FormValues → Submitted
unfolding submit_rest
checked none form = submit_rest form.type form
checked (some e) form = refused e

unfoldable pub submit : FormValues → Submitted
unfolding trim validate_value checked
submit form =
    if is_empty (trim form.name)
    then alerted "Name is required"
    else checked (validate_value form.value form.type) form

-- The payload, by type; `none` is a property that is not there.
pub record Payload : Type 0 where
  pub name : String
  pub type : AssetType
  pub value : Option String
  pub username : Option String
  pub password : Option String
  pub description : Option String

-- `values.description || null`
abbrev described : Option String → Option String
described none = none
described (some s) = if is_empty s then none else some s

abbrev payload_of : AssetType → FormValues → Option String → Payload
payload_of credential f d = record {
  name = f.name;
  type = credential;
  value = none;
  username = some f.cred_user;
  password = some f.cred_pass;
  description = d;
}
payload_of bool f d = record {
  name = f.name;
  type = bool;
  value = some (if f.value == "true" then "true" else "false");
  username = none;
  password = none;
  description = d;
}
payload_of t f d = record {
  name = f.name;
  type = t;
  value = some f.value;
  username = none;
  password = none;
  description = d;
}

unfoldable pub normalize_payload : FormValues → Payload
normalize_payload f = payload_of f.type f (described f.description)
