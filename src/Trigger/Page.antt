-- ===== src/Trigger/Page.antt =====
-- TriggersPage.tsx: the list of triggers with its search and selection, and the actions on a trigger.
use bv_orchestrator.Trigger.{Trigger}
use bv_orchestrator.Processes.{Process}
use bv_orchestrator.Common.Number.{Number, int, show_number}
use bv_orchestrator.Common.Int.{pos}
use bv_orchestrator.Bulk.{toggle_id, toggle_all, delete_each, report}
use bv_orchestrator.Common.{
  ◌==◌, nat_eq, string_eq, if◌then◌else◌, is_some, length, keep, ◌+++◌, or_text, to_lower, includes,
  ℕ, String, Bool, true, false, not, ◌&&◌, ◌||◌, Option, none, some, List, [], ◌∷◌, map,
}

-- The state of the page; `said` are the titles of its toasts and alerts, the newest first.
pub record TriggersPage : Type 0 where
  pub items : List Trigger
  pub processes : List Process
  pub error : Option String
  pub modal_open : Bool
  pub editing : Option Trigger
  pub search : String
  pub selected : List String
  pub said : List String

abbrev pub say : String → TriggersPage → TriggersPage
say title v = record v { said = title ∷ v.said }

-- what the four requests of a load come to
pub data Loaded : Type 0 where
  came : List Trigger → List Process → Loaded
  failed : (message : String) → Loaded

-- `load`
unfoldable pub load : Loaded → TriggersPage → TriggersPage
load (came ts ps) v = record v { items = ts; processes = ps; error = none }
load (failed e) v = record v { error = some (or_text e "Failed to load triggers") }

-- whether a process has the id of a trigger
abbrev is_id : Number → ℕ → Bool
is_id (int (pos n)) id = n == id
is_id _ id = false

-- `processNameById.get(id)`, where a later process takes the place of an earlier one
unfoldable pub process_name : List Process → Number → Option String
process_name [] id = none
process_name (p ∷ ps) id = elim (process_name ps id) [
  | some name ↦ some name
  | none ↦ if is_id id p.id then some p.name else none
]

abbrev is_named : String → Option String → Bool
is_named search none = false
is_named search (some name) = includes (to_lower name) (to_lower search)

-- `filtered`
unfoldable pub filtered : TriggersPage → List Trigger
unfolding to_lower process_name
filtered v =
    keep
      (λ (t : Trigger).
        includes (to_lower t.name) (to_lower v.search)
        || is_named v.search (process_name v.processes t.process_id))
      v.items

abbrev pub ids : List Trigger → List String
ids ts = map (λ (t : Trigger). t.id) ts

unfoldable pub toggle_select : String → TriggersPage → TriggersPage
unfolding toggle_id
toggle_select id v = record v { selected = toggle_id id v.selected }

unfoldable pub toggle_select_all : TriggersPage → TriggersPage
unfolding toggle_all
toggle_select_all v = record v { selected = toggle_all (ids v.items) v.selected }

-- whether the box above the rows is checked
abbrev pub all_checked : TriggersPage → Bool
all_checked v = length v.selected == length (filtered v) && not (length (filtered v) == 0)

-- `toggleTrigger`, at the server's answer
unfoldable pub toggle_trigger : Option String → Loaded → Bool → TriggersPage → TriggersPage
unfolding load
toggle_trigger none after true v = say "Trigger enabled" (load after v)
toggle_trigger none after false v = say "Trigger disabled" (load after v)
toggle_trigger (some e) after enabled v = say "Action failed" v

-- the job that `handleRunNow` asks for
pub record TriggerJob : Type 0 where
  pub process_id : Number
  pub robot_id : Option Number
  pub source : String
  pub trigger_id : String

abbrev job_of : Trigger → TriggerJob
job_of t = record {
  process_id = t.process_id;
  robot_id = t.robot_id;
  source = "Trigger";
  trigger_id = t.id;
}

-- `handleRunNow`
unfoldable pub handle_run_now : Option String → Trigger → TriggersPage → TriggerJob × TriggersPage
handle_run_now none t v = (job_of t, say "Job started from trigger" v)
handle_run_now (some e) t v = (job_of t, say "Run failed" v)

abbrev pub handle_edit : Trigger → TriggersPage → TriggersPage
handle_edit t v = record v { editing = some t; modal_open = true }

abbrev pub open_new : TriggersPage → TriggersPage
open_new v = record v { modal_open = true }

abbrev pub close_modal : TriggersPage → TriggersPage
close_modal v = record v { modal_open = false; editing = none }

-- `handleDelete`: the ids that are sent, and the page
unfoldable pub handle_delete :
    (String → Option String) → Loaded → Bool → Trigger → TriggersPage → List String × TriggersPage
unfolding load
handle_delete answer after confirmed t v =
    if not confirmed
    then ([], v)
    else if is_some (answer t.id)
    then (t.id ∷ [], say "Delete failed" v)
    else (t.id ∷ [], say "Trigger deleted" (load after v))

-- `handleBulkDelete`
unfoldable pub handle_bulk_delete :
    (String → Option String) → Loaded → Bool → TriggersPage → List String × TriggersPage
unfolding load delete_each report
handle_bulk_delete answer after confirmed v =
    if length v.selected == 0 || not confirmed
    then ([], v)
    else (let (count, errors) = delete_each (λ id. "trigger " +++ id) answer v.selected in
        (
          v.selected,
          load after (record (say (report "trigger" count errors).0 v) { selected = [] }),
        ))

-- `handleViewJobs`
abbrev pub jobs_of_trigger : Trigger → String
jobs_of_trigger t =
    "#/automations/jobs?processId=" +++ show_number t.process_id +++ "&source=Trigger"
