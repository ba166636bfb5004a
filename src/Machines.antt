-- ===== src/Machines.antt =====
-- MachinesPage.tsx with types/machine.ts: the list of machines and its filter, the deletion, and the two
-- windows that show a machine's key. A window is told apart from a later one by its number, since the answer
-- to a request finds the window that sent it, or none.
pub mod Secrets
pub mod Tests
use bv_orchestrator.Common.{
  ltb, ◌==◌, nat_eq, string_eq, if◌then◌else◌, or_default, is_some, keep, is_empty, or_text, trim,
  to_lower, includes, ℕ, suc, String, Bool, true, false, not, ◌||◌, Option, none, some, List, [],
  ◌∷◌,
}

pub data MachineMode : Type 0 where
  dev runner : MachineMode

pub data MachineStatus : Type 0 where
  connected disconnected : MachineStatus

pub record Machine : Type 0 where
  pub id : ℕ
  pub name : String
  pub mode : MachineMode
  pub status : MachineStatus
  pub robot_count : ℕ
  pub machine_key : Option String

-- AddMachineModal
pub record AddWindow : Type 0 where
  pub number : ℕ
  pub name : String
  pub mode : MachineMode
  pub saving : Bool
  pub error : Option String
  pub created_key : Option String

-- MachineDetailsModal
pub record DetailsWindow : Type 0 where
  pub number : ℕ
  pub machine : Machine
  pub regenerated_key : Option String

-- `opened` is how many windows have been opened.
pub record MachinesPage : Type 0 where
  pub items : List Machine
  pub error : Option String
  pub search_term : String
  pub opened : ℕ
  pub add : Option AddWindow
  pub details : Option DetailsWindow
  pub said : List String

abbrev pub say : String → MachinesPage → MachinesPage
say title v = record v { said = title ∷ v.said }

-- what a request comes to: a value, or the message of its error
pub data Got (A : Type 0) : Type 0 where
  got : A → Got A
  failed : (message : String) → Got A

unfoldable pub load : Got (List Machine) → MachinesPage → MachinesPage
load (got ms) v = record v { items = ms; error = none }
load (failed e) v = record v { error = some (or_text e "Failed to load machines") }

unfoldable pub open_add : MachinesPage → MachinesPage
open_add v = record v {
  opened = suc v.opened;
  add = some (record {
    number = v.opened;
    name = "";
    mode = dev;
    saving = false;
    error = none;
    created_key = none;
  });
}

unfoldable pub close_add : MachinesPage → MachinesPage
close_add v = record v { add = none }

-- `openDetails`, when the machine has come
unfoldable pub open_details : Got Machine → MachinesPage → MachinesPage
open_details (got m) v = record v {
  error = none;
  opened = suc v.opened;
  details = some (record { number = v.opened; machine = m; regenerated_key = none });
}
open_details (failed e) v = record v { error = some (or_text e "Failed to load machine details") }

unfoldable pub close_details : MachinesPage → MachinesPage
close_details v = record v { details = none }

-- the request for a new machine, with the window that sends it
pub record Creation : Type 0 where
  pub number : ℕ
  pub name : String
  pub mode : MachineMode

abbrev pub submit_window : Option AddWindow → MachinesPage → MachinesPage × Option Creation
submit_window none v = (v, none)
submit_window (some w) v = if is_empty (trim w.name) || w.saving then (v, none) else (
  record v { add = some (record w { saving = true; error = none }) },
  some (record { number = w.number; name = trim w.name; mode = w.mode }),
)

-- `submit` of the window up to its request; the button is off while it is being saved
unfoldable pub submit : MachinesPage → MachinesPage × Option Creation
unfolding trim
submit v = submit_window v.add v

-- a change of the window that sent the request, where it is still open
abbrev pub at_window : ℕ → (AddWindow → AddWindow) → Option AddWindow → Option AddWindow
at_window number change none = none
at_window number change (some w) = if w.number == number then some (change w) else some w

-- A runner's key is shown in the window; for another machine the page closes the window that is open.
unfoldable pub show_created : MachineMode → ℕ → Machine → MachinesPage → MachinesPage
unfolding close_add
show_created dev number m v = close_add v
show_created runner number m v = record v {
  add =
      at_window number
        (λ (w : AddWindow). record w {
          saving = false;
          created_key = some (or_default m.machine_key "");
        })
        v.add;
}

-- The rest of `submit`, with the list that is loaded in between.
unfoldable pub created : Creation → Got Machine → Got (List Machine) → MachinesPage → MachinesPage
unfolding load show_created
created c (failed e) after v = record v {
  add =
      at_window c.number
        (λ (w : AddWindow). record w { saving = false; error = some (or_text e "Create failed") })
        v.add;
}
created c (got m) after v = show_created c.mode c.number m (load after v)

-- `handleDelete`, and `doDelete` of the window, which closes it: the ids that are sent, and the page
unfoldable pub handle_delete :
    (closes : Bool)
    → (ℕ → Option String)
    → Got (List Machine)
    → Bool
    → Machine
    → MachinesPage
    → List ℕ × MachinesPage
unfolding load close_details
handle_delete closes answer after confirmed m v =
    if ltb 0 m.robot_count || not confirmed
    then ([], v)
    else if is_some (answer m.id)
    then (m.id ∷ [], say "Delete failed" v)
    else (m.id ∷ [], say "Machine deleted" (load after (if closes then close_details v else v)))

abbrev pub is_runner : MachineMode → Bool
is_runner runner = true
is_runner dev = false

abbrev pub at_details : ℕ → String → Option DetailsWindow → Option DetailsWindow
at_details number key none = none
at_details number key (some w) =
    if w.number == number then some (record w { regenerated_key = some key }) else some w

unfoldable pub show_regenerated : ℕ → Got String → MachinesPage → MachinesPage
show_regenerated number (got key) v =
    say "Machine key regenerated" (record v { details = at_details number key v.details })
show_regenerated number (failed e) v = say "Regenerate failed" v

-- `doRegenerateKey` of the window with that number
unfoldable pub regenerate_key :
    ℕ → Got String → Bool → Machine → MachinesPage → List ℕ × MachinesPage
unfolding show_regenerated
regenerate_key number reply confirmed m v =
    if not (is_runner m.mode) || not confirmed
    then ([], v)
    else (m.id ∷ [], show_regenerated number reply v)

abbrev mode_text : MachineMode → String
mode_text dev = "dev"
mode_text runner = "runner"

abbrev machine_status_text : MachineStatus → String
machine_status_text connected = "connected"
machine_status_text disconnected = "disconnected"

-- `filteredItems`
unfoldable pub filtered_items : MachinesPage → List Machine
unfolding trim to_lower
filtered_items v =
    let term = to_lower (trim v.search_term) in
    if is_empty term
    then v.items
    else keep
        (λ (m : Machine).
          includes (to_lower m.name) term
          || includes (to_lower (mode_text m.mode)) term
          || includes (to_lower (machine_status_text m.status)) term)
        v.items
