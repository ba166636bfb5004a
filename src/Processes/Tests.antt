-- ===== src/Processes/Tests.antt =====
-- The processes' page on concrete processes (ProcessesPage.tsx).
use bv_orchestrator.Packages.{Package, rpa}
use bv_orchestrator.Processes.{
  Process, FormValues, ProcessModal, values, opened, package_effect, selected_package, submit,
  payload_of,
}
use bv_orchestrator.Processes.Runnable.{is_runnable, submit-IsRunnable}
use bv_orchestrator.Processes.Actions.{
  ProcessesPage, came, entrypoint_label, handle_bulk_delete, search_submit,
}
use bv_orchestrator.Common.Separators.{lacks}
use bv_orchestrator.Common.{
  nat_eq, string_eq, is_empty, trim, ◌≡◌, refl, true, false, none, some, [], ◌∷◌,
}

page : Unit {0}
unfolding opened package_effect selected_package submit payload_of entrypoint_label
    handle_bulk_delete search_submit trim lacks
page = tt

abbrev invoices : Package
invoices = record {
  id = 4;
  name = "Invoices";
  version = "1.2";
  type = some rpa;
  is_active = true;
  is_bvpackage = true;
  entrypoints =
      record { name = "main"; is_default = false }
      ∷ record { name = "retry"; is_default = true }
      ∷ [];
  default_entrypoint = none;
  updated_at = 0;
}

abbrev process : Process
process = record {
  id = 7;
  name = "Nightly";
  description = none;
  package_id = some 4;
  script_path = "jobs/nightly.v2.py";
  entrypoint_name = none;
  of_package = some (record { name = "Invoices"; version = "1.2"; is_bvpackage = true });
  latest_version = none;
  upgrade_available = false;
}

-- the form of the process, once the effect has filled in its entrypoint
abbrev filled : ProcessModal
filled = package_effect (some invoices) (opened (invoices ∷ []) (some process))

abbrev sent : FormValues
sent = record {
  name = "Nightly";
  package_id = some 4;
  script_path = "";
  entrypoint_name = "retry";
  is_bv = true;
  description = "";
}

sent_test : submit (invoices ∷ []) filled ≡ values sent
unfolding page
sent_test = refl

submit-IsRunnable_example :
    (is_runnable (payload_of sent) ≡ true) × (is_empty (trim sent.name) ≡ false)
submit-IsRunnable_example = submit-IsRunnable (invoices ∷ []) filled sent sent_test

abbrev scripted : Process
scripted = record process { of_package = none }

abbrev shown : ProcessesPage
shown = record {
  items = process ∷ [];
  error = none;
  pending_search = " monthly ";
  search_term = "";
  selected = 7 ∷ [];
  editing = none;
  modal_open = false;
  trigger_modal_open = false;
  trigger_process_id = none;
  said = [];
}

-- A process that the search has taken off the screen is still selected, and deleted.
unseen_test :
    (handle_bulk_delete (λ id. none) (came []) true (search_submit (came []) shown).1).0 ≡ 7 ∷ []
unfolding page
unseen_test = refl
