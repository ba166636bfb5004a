-- ===== src/Settings/Page.antt =====
-- The settings' page (SettingsPage.tsx): its state, its load, its inputs, the save and the test email, each
-- split at its await, and a visit as events in any order.
use bv_orchestrator.Settings.{
  EmailSettings, default_email_settings, EmailAnswer, with_defaults, normalize_general_settings,
  general_body, EmailBody, email_body, EmailField, validate_email_config,
}
use bv_orchestrator.Common.Number.{to_number}
use bv_orchestrator.Common.{
  nat_eq, string_eq, if◌then◌else◌, is_empty, or_text, trim, String, Bool, true, false, not, Option,
  none, some, List, [],
}

pub record SettingsPage : Type 0 where
  pub timezone : String
  pub loading : Bool
  pub saving : Bool
  pub error : Option String
  pub success : Option String
  pub email_settings : EmailSettings
  pub email_password : String
  pub test_recipient : String
  pub test_status : Option (Bool × String)
  pub testing : Bool
  pub collapsed_general : Bool
  pub collapsed_email : Bool
  pub invalid_email_fields : List EmailField

abbrev pub opened : SettingsPage
opened = record {
  timezone = "UTC";
  loading = true;
  saving = false;
  error = none;
  success = none;
  email_settings = default_email_settings;
  email_password = "";
  test_recipient = "";
  test_status = none;
  testing = false;
  collapsed_general = false;
  collapsed_email = true;
  invalid_email_fields = [];
}

-- What the two requests of a load or of a save come to: both answers, or the error of the first that fails.
pub data SettingsAnswer : Type 0 where
  came : (timezone : Option String) → EmailAnswer → SettingsAnswer
  failed : (message : String) → SettingsAnswer

abbrev show_settings : Option String → EmailAnswer → SettingsPage → SettingsPage
show_settings timezone email v = record v {
  timezone = or_text (normalize_general_settings timezone) "UTC";
  email_settings = with_defaults email;
  email_password = "";
}

-- the end of `load`, while the page is mounted
unfoldable pub load : SettingsAnswer → SettingsPage → SettingsPage
load (came timezone email) v = record (show_settings timezone email v) { loading = false }
load (failed e) v = record v { error = some (or_text e "Failed to load settings"); loading = false }

-- the password that is sent, if any
abbrev pub password_to_send : String → Option String
password_to_send s = if is_empty (trim s) then none else some (trim s)

pub record SaveRequest : Type 0 where
  pub general : Option String
  pub email : EmailBody

abbrev refuse : String × List EmailField → SettingsPage → SettingsPage
refuse (message, fields) v = record v {
  saving = false;
  error = some message;
  success = none;
  invalid_email_fields = fields;
  collapsed_email = false;
}

abbrev request_of : SettingsPage → SaveRequest
request_of v = record {
  general = general_body v.timezone;
  email =
      email_body (record v.email_settings { smtp_password = password_to_send v.email_password });
}

-- the rest of `handleSave`, at what its check returns
abbrev pub save_checked :
    Option (String × List EmailField) → SettingsPage → Option SaveRequest × SettingsPage
save_checked (some e) v = (none, refuse e v)
save_checked none v = (
  some (request_of v),
  record v { saving = true; error = none; success = none; invalid_email_fields = [] },
)

-- `handleSave` up to its await
unfoldable pub save_start : SettingsPage → Option SaveRequest × SettingsPage
save_start v = save_checked (validate_email_config v.email_settings) v

unfoldable pub save_finish : SettingsAnswer → SettingsPage → SettingsPage
save_finish (came timezone email) v = record (show_settings timezone email v) {
  success = some "Saved";
  saving = false;
}
save_finish (failed e) v = record v { error = some (or_text e "Save failed"); saving = false }

-- the address that a test email is sent to
abbrev pub target_of : SettingsPage → String
target_of v = or_text (trim v.test_recipient) (trim v.email_settings.from_address)

abbrev told : Bool → String → SettingsPage → SettingsPage
told ok message v = record v { test_status = some (ok, message) }

-- `handleTestEmail` up to its await
unfoldable pub test_start : SettingsPage → Option String × SettingsPage
test_start v =
    if not v.email_settings.enabled
    then (none, told false "Enable email settings before testing." v)
    else if is_empty (target_of v)
    then (none, told false "Provide a recipient for the test email." v)
    else (some (target_of v), record v { test_status = none; testing = true })

unfoldable pub test_finish : Option String → SettingsPage → SettingsPage
test_finish none v = record (told true "Test email queued. Check your inbox." v) { testing = false }
test_finish (some e) v = record (told false (or_text e "Test email failed") v) { testing = false }

-- the inputs of the email settings
pub data EmailEdit : Type 0 where
  set_enabled set_tls set_ssl : (checked : Bool) → EmailEdit
  type_host type_port type_username type_from : (value : String) → EmailEdit

unfoldable pub edit : EmailEdit → EmailSettings → EmailSettings
unfolding to_number
edit (set_enabled b) s = record s { enabled = b }
edit (set_tls b) s = record s {
  smtp_use_tls = b;
  smtp_use_ssl = if b then false else s.smtp_use_ssl;
}
edit (set_ssl b) s = record s {
  smtp_use_ssl = b;
  smtp_use_tls = if b then false else s.smtp_use_tls;
}
edit (type_host x) s = record s { smtp_host = x }
edit (type_port x) s = record s { smtp_port = if is_empty x then none else some (to_number x) }
edit (type_username x) s = record s { smtp_username = x }
edit (type_from x) s = record s { from_address = x }
