-- ===== src/Settings.antt =====
-- api/settings.ts, and the check of the email settings of SettingsPage.tsx. An answer of the server is the
-- object that `toCamel` returns: a field is `none` where it is missing, and has its type where it is there.
pub mod Page
pub mod Visit
pub mod Save
pub mod Tests
use bv_orchestrator.Common.Number.{Number, nan}
use bv_orchestrator.Common.{
  nat_eq, string_eq, if◌then◌else◌, or_default, is_nil, ◌+++◌, is_empty, trim, join, String, Bool,
  true, false, not, ◌&&◌, Option, none, some, List, [], ◌∷◌, ◌++◌, map,
}

pub record EmailSettings : Type 0 where
  pub enabled : Bool
  pub smtp_host : String
  pub smtp_port : Option Number
  pub smtp_username : String
  pub smtp_password : Option String
  pub smtp_password_set : Bool
  pub smtp_use_tls : Bool
  pub smtp_use_ssl : Bool
  pub from_address : String

abbrev pub default_email_settings : EmailSettings
default_email_settings = record {
  enabled = false;
  smtp_host = "";
  smtp_port = none;
  smtp_username = "";
  smtp_password = some "";
  smtp_password_set = false;
  smtp_use_tls = false;
  smtp_use_ssl = false;
  from_address = "";
}

-- the settings as the server returns them
pub record EmailAnswer : Type 0 where
  pub enabled : Option Bool
  pub smtp_host : Option String
  pub smtp_port : Option Number
  pub smtp_username : Option String
  pub smtp_password : Option String
  pub smtp_password_set : Option Bool
  pub smtp_use_tls : Option Bool
  pub smtp_use_ssl : Option Bool
  pub from_address : Option String

-- `{ ...defaultEmailSettings, ...parsed }`
unfoldable pub with_defaults : EmailAnswer → EmailSettings
with_defaults a = record {
  enabled = or_default a.enabled false;
  smtp_host = or_default a.smtp_host "";
  smtp_port = a.smtp_port;
  smtp_username = or_default a.smtp_username "";
  smtp_password = some (or_default a.smtp_password "");
  smtp_password_set = or_default a.smtp_password_set false;
  smtp_use_tls = or_default a.smtp_use_tls false;
  smtp_use_ssl = or_default a.smtp_use_ssl false;
  from_address = or_default a.from_address "";
}

-- `normalizeGeneralSettings`, at the timezone of the answer
unfoldable pub normalize_general_settings : Option String → String
normalize_general_settings none = "UTC"
normalize_general_settings (some tz) = if is_empty (trim tz) then "UTC" else trim tz

-- the body of `updateGeneralSettings`
abbrev pub general_body : String → Option String
general_body timezone = if is_empty timezone then none else some timezone

-- the body of `updateEmailSettings`
pub record EmailBody : Type 0 where
  pub enabled : Bool
  pub smtp_host : String
  pub smtp_port : Option Number
  pub smtp_username : String
  pub smtp_use_tls : Bool
  pub smtp_use_ssl : Bool
  pub from_address : String
  pub smtp_password : Option String

abbrev pub email_body : EmailSettings → EmailBody
email_body s = record {
  enabled = s.enabled;
  smtp_host = s.smtp_host;
  smtp_port = s.smtp_port;
  smtp_username = s.smtp_username;
  smtp_use_tls = s.smtp_use_tls;
  smtp_use_ssl = s.smtp_use_ssl;
  from_address = s.from_address;
  smtp_password = s.smtp_password;
}

pub data EmailField : Type 0 where
  smtp_host smtp_port from_address smtp_use_tls smtp_use_ssl : EmailField

-- `labelMap[m] || m`
abbrev pub label_of : EmailField → String
label_of smtp_host = "SMTP Host"
label_of smtp_port = "SMTP Port"
label_of from_address = "From Address"
label_of smtp_use_tls = "smtpUseTls"
label_of smtp_use_ssl = "smtpUseSsl"

-- `state.smtpPort === null || Number.isNaN(state.smtpPort)`
abbrev pub is_missing : Option Number → Bool
is_missing none = true
is_missing (some nan) = true
is_missing (some n) = false

abbrev pub missing_fields : EmailSettings → List EmailField
missing_fields s =
    (if is_empty (trim s.smtp_host) then EmailField.smtp_host ∷ [] else [])
    ++ (if is_missing s.smtp_port then EmailField.smtp_port ∷ [] else [])
    ++ (if is_empty (trim s.from_address) then EmailField.from_address ∷ [] else [])

-- The message and the fields of an error, `none` where there is none.
unfoldable pub validate_email_config : EmailSettings → Option (String × List EmailField)
unfolding join
validate_email_config s =
    if not s.enabled
    then none
    else if s.smtp_use_tls && s.smtp_use_ssl
    then some (
      "Choose either TLS or SSL, not both.",
      EmailField.smtp_use_tls ∷ EmailField.smtp_use_ssl ∷ [],
    )
    else if is_nil (missing_fields s)
    then none
    else some (
      "Missing required fields: " +++ join ", " (map label_of (missing_fields s)),
      missing_fields s,
    )
