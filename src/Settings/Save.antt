-- ===== src/Settings/Save.antt =====
-- When the settings are sent (SettingsPage.tsx).
use bv_orchestrator.Settings.{EmailSettings, is_missing, missing_fields, validate_email_config}
use bv_orchestrator.Settings.Page.{SettingsPage, save_start}
use bv_orchestrator.Common.{
  nat_eq, string_eq, is_some, Bool-cases, is_nil, is_empty, trim, ◌≡◌, refl, inl, inr, Bool, not,
  ◌&&◌, ◌||◌,
}

-- what the server can send mail with
abbrev pub is_complete : EmailSettings → Bool
is_complete s =
    not (is_empty (trim s.smtp_host))
    && not (is_missing s.smtp_port)
    && not (is_empty (trim s.from_address))

none_missing : (s : EmailSettings) → is_nil (missing_fields s) ≡ is_complete s
none_missing s = elim (Bool-cases (is_empty (trim s.smtp_host))) [
  | inl a ↦ rw (a) refl
  | inr a ↦ elim (Bool-cases (is_missing s.smtp_port)) [
    | inl b ↦ rw (a, b) refl
    | inr b ↦ elim (Bool-cases (is_empty (trim s.from_address))) [
      | inl c ↦ rw (a, b, c) refl
      | inr c ↦ rw (a, b, c) refl
    ]
  ]
]

-- The settings are sent exactly when the mails are off, or TLS and SSL are not both chosen and there are a
-- host, a port and a sender; otherwise there is an error.
save_start_iff :
    (v : SettingsPage)
    → (is_some (save_start v).0 ≡ (
        not v.email_settings.enabled
        || not (v.email_settings.smtp_use_tls && v.email_settings.smtp_use_ssl)
          && is_complete v.email_settings))
      × (is_some (save_start v).1.error ≡ not (is_some (save_start v).0))
unfolding save_start validate_email_config
save_start_iff v = elim (Bool-cases (not v.email_settings.enabled)) [
  | inl off ↦ rw (off) (refl, refl)
  | inr on ↦ elim (Bool-cases (v.email_settings.smtp_use_tls && v.email_settings.smtp_use_ssl)) [
    | inl both ↦ rw (on, both) (refl, refl)
    | inr secure ↦
        rw⁻¹ (none_missing v.email_settings)
          (elim (Bool-cases (is_nil (missing_fields v.email_settings))) [
            | inl fit ↦ rw (on, secure, fit) (refl, refl)
            | inr unfit ↦ rw (on, secure, unfit) (refl, refl)
          ])
  ]
]
