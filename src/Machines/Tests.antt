-- ===== src/Machines/Tests.antt =====
-- The machines' page on concrete machines (MachinesPage.tsx).
use bv_orchestrator.Machines.{
  runner, Machine, connected, MachinesPage, Creation, AddWindow, got, handle_delete, filtered_items,
  submit,
}
use bv_orchestrator.Machines.Secrets.{
  MachineEvent, add_opened, add_closed, name_typed, mode_chosen, submitted, creation_answered, run,
}
use bv_orchestrator.Common.{
  nat_eq, string_eq, trim, String, ◌≡◌, refl, true, false, Option, none, some, List, [], ◌∷◌,
}

page : Unit {0}
unfolding run handle_delete filtered_items trim
page = tt

abbrev machine : Machine
machine = record {
  id = 3;
  name = "RPA-1";
  mode = runner;
  status = connected;
  robot_count = 1;
  machine_key = some "k-1";
}

abbrev empty : MachinesPage
empty = record {
  items = [];
  error = none;
  search_term = "";
  opened = 0;
  add = none;
  details = none;
  said = [];
}

abbrev creation : Creation
creation = record { number = 0; name = "RPA-1"; mode = runner }

abbrev typed : List MachineEvent
typed = add_opened ∷ name_typed " RPA-1 " ∷ mode_chosen runner ∷ []

abbrev visit : List MachineEvent
visit =
    add_opened
    ∷ name_typed " RPA-1 "
    ∷ mode_chosen runner
    ∷ submitted
    ∷ creation_answered creation (got machine) (got [])
    ∷ []

creation_test : (submit (run empty typed)).1 ≡ some creation
unfolding page
creation_test = refl

abbrev key_of : Option AddWindow → Option String
key_of none = none
key_of (some w) = w.created_key

key_test : key_of (run empty visit).add ≡ some "k-1"
unfolding page
key_test = refl

-- A window that is closed too early never shows the key.
lost_test :
    key_of
      (run empty (
        add_opened
        ∷ add_closed
        ∷ add_opened
        ∷ creation_answered creation (got machine) (got [])
        ∷ [])).add
    ≡ none
unfolding page
lost_test = refl

delete_test : (handle_delete false (λ id. none) (got []) true machine empty).0 ≡ []
unfolding page
delete_test = refl
