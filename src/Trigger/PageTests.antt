-- ===== src/Trigger/PageTests.antt =====
-- The triggers' page on concrete triggers (TriggersPage.tsx).
use bv_orchestrator.Trigger.{Trigger, time, whole}
use bv_orchestrator.Trigger.Page.{
  TriggersPage, load, filtered, process_name, ids, toggle_select, toggle_select_all,
  handle_bulk_delete,
}
use bv_orchestrator.Processes.{Process}
use bv_orchestrator.Common.{
  nat_eq, string_eq, to_lower, ℕ, String, ◌≡◌, refl, true, false, none, [], ◌∷◌,
}

page : Unit {0}
unfolding load filtered process_name toggle_select toggle_select_all handle_bulk_delete to_lower
page = tt

abbrev trigger : String → String → ℕ → Trigger
trigger id name process = record {
  id = id;
  name = name;
  type = time;
  process_id = whole process;
  enabled = true;
  robot_id = none;
  cron_expression = none;
  timezone = none;
  queue_id = none;
  batch_size = none;
  polling_interval = none;
}

abbrev process : Process
process = record {
  id = 7;
  name = "Billing";
  description = none;
  package_id = none;
  script_path = "";
  entrypoint_name = none;
  of_package = none;
  latest_version = none;
  upgrade_available = false;
}

abbrev shown : TriggersPage
shown = record {
  items = trigger "t-1" "Nightly" 7 ∷ trigger "t-2" "Hourly" 8 ∷ [];
  processes = process ∷ [];
  error = none;
  modal_open = false;
  editing = none;
  search = "bill";
  selected = [];
  said = [];
}

filtered_test : ids (filtered shown) ≡ "t-1" ∷ []
unfolding page
filtered_test = refl
