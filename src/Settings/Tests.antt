-- ===== src/Settings/Tests.antt =====
-- The settings' page on concrete settings (SettingsPage.tsx).
use bv_orchestrator.Settings.{
  EmailAnswer, with_defaults, normalize_general_settings, validate_email_config,
}
use bv_orchestrator.Settings.Page.{
  opened, came, load, save_start, save_finish, test_start, edit, set_ssl, type_port,
}
use bv_orchestrator.Settings.Visit.{
  SettingsEvent, loaded, email_toggled, save_clicked, edited, step, run, IsCalm, run-IsCalm,
}
use bv_orchestrator.Common.Number.{int, to_number}
use bv_orchestrator.Common.Int.{pos}
use bv_orchestrator.Common.{
  nat_eq, string_eq, trim, join, ◌≡◌, refl, true, false, none, some, List, [], ◌∷◌,
}

page : Unit {0}
unfolding run step load save_start save_finish test_start edit with_defaults
    normalize_general_settings validate_email_config to_number trim join
page = tt

abbrev kept : EmailAnswer
kept = record {
  enabled = some true;
  smtp_host = some "mail";
  smtp_port = none;
  smtp_username = none;
  smtp_password = some "********";
  smtp_password_set = some true;
  smtp_use_tls = some true;
  smtp_use_ssl = some false;
  from_address = none;
}

-- A page that came with TLS, on which SSL and a port are chosen, is saved without a sender.
abbrev visit : List SettingsEvent
visit =
    loaded (came (some " Europe/Berlin ") kept)
    ∷ email_toggled
    ∷ edited (set_ssl true)
    ∷ edited (type_port "465")
    ∷ save_clicked
    ∷ []

refused_test :
    ((run opened visit).error ≡ some "Missing required fields: From Address")
    × ((run opened visit).timezone ≡ "Europe/Berlin")
    × ((run opened visit).email_settings.smtp_use_tls ≡ false)
    × ((run opened visit).email_settings.smtp_port ≡ some (int (pos 465)))
unfolding page
refused_test = (refl, refl, refl, refl)

run-IsCalm_example : IsCalm (run opened visit)
unfolding page
run-IsCalm_example = run-IsCalm visit opened refl (refl, refl)
