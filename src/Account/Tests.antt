-- ===== src/Account/Tests.antt =====
-- The page of the account on a concrete account (MyAccountPage.tsx).
use bv_orchestrator.Json.{str, end, prop, null}
use bv_orchestrator.Account.{Account, account}
use bv_orchestrator.Account.Laws.{chosen_timezone}
use bv_orchestrator.Common.{nat_eq, string_eq, trim, ◌≡◌, refl, none, some, []}

abbrev ann : Account
ann = record {
  profile = some (record {
    id = null;
    username = "ann";
    display_name = none;
    avatar_url = none;
    last_login = none;
    preferences = prop "theme" (str "dark") (prop "timezone" (str "UTC") end);
  });
  active_tab = account;
  display_name = "Ann";
  timezone_pref = " Asia/Kolkata ";
  current_password = "old";
  new_password = "new";
  confirm_password = "new";
  last_login = none;
  avatar_error = "";
  said = [];
}

timezone_test : chosen_timezone ann ≡ some (str "Asia/Kolkata")
unfolding trim
timezone_test = refl
