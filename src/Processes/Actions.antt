-- ===== src/Processes/Actions.antt =====
-- ProcessesPage.tsx: the list of processes, its selection and search, the deletions, the upgrade, and the
-- labels of a row.
use bv_orchestrator.Processes.{PackageRef, Process, FormValues, Payload, payload_of}
use bv_orchestrator.Bulk.{toggle_id, toggle_all, delete_each, report}
use bv_orchestrator.Common.{
  ◌==◌, nat_eq, string_eq, if◌then◌else◌, or_default, is_some, length, ◌+++◌, is_empty, or_text,
  trim, show_nat, ℕ, code, String, Bool, true, false, not, ◌&&◌, ◌||◌, Option, none, some, List, [],
  ◌∷◌, map,
}

-- The state of the page; `said` are the titles of its toasts and alerts, the newest first.
pub record ProcessesPage : Type 0 where
  pub items : List Process
  pub error : Option String
  pub pending_search : String
  pub search_term : String
  pub selected : List ℕ
  pub editing : Option Process
  pub modal_open : Bool
  pub trigger_modal_open : Bool
  pub trigger_process_id : Option ℕ
  pub said : List String

abbrev pub say : String → ProcessesPage → ProcessesPage
say title v = record v { said = title ∷ v.said }

-- what a request for the processes comes to
pub data Loaded : Type 0 where
  came : List Process → Loaded
  failed : (message : String) → Loaded

-- `load`, which leaves the selection as it is
unfoldable pub load : Loaded → ProcessesPage → ProcessesPage
load (came ps) v = record v { items = ps; error = none }
load (failed e) v = record v { error = some (or_text e "Failed to load processes") }

unfoldable pub open_new : ProcessesPage → ProcessesPage
open_new v = record v { editing = none; modal_open = true }

unfoldable pub open_edit : Process → ProcessesPage → ProcessesPage
open_edit p v = record v { editing = some p; modal_open = true }

unfoldable pub close_modal : ProcessesPage → ProcessesPage
close_modal v = record v { modal_open = false; editing = none }

-- `handleSearchSubmit`: the term that is asked for, and the page once the answer has come
unfoldable pub search_submit : Loaded → ProcessesPage → String × ProcessesPage
unfolding load trim
search_submit answer v =
    (trim v.pending_search, load answer (record v { search_term = trim v.pending_search }))

-- What `handleSave` sends: a new process, or the change of one.
pub data SaveRequest : Type 0 where
  create_process : Payload → SaveRequest
  update_process : (id : ℕ) → Payload → SaveRequest

abbrev request_of : Option Process → Payload → SaveRequest
request_of none p = create_process p
request_of (some e) p = update_process e.id p

unfoldable pub save_start : FormValues → ProcessesPage → SaveRequest
unfolding payload_of
save_start values v = request_of v.editing (payload_of values)

-- The rest of it; the toast tells which of the two it was.
unfoldable pub save_finish : Option String → Loaded → ProcessesPage → ProcessesPage
unfolding close_modal load
save_finish none after v =
    say (if is_some v.editing then "Process updated" else "Process created")
      (load after (close_modal v))
save_finish (some e) after v = say "Save failed" v

-- `handleDelete`: the ids that are sent, and the page
unfoldable pub handle_delete :
    (ℕ → Option String) → Loaded → Bool → ℕ → ProcessesPage → List ℕ × ProcessesPage
unfolding load
handle_delete answer after confirmed id v =
    if not confirmed
    then ([], v)
    else if is_some (answer id)
    then (id ∷ [], say "Delete failed" v)
    else (id ∷ [], say "Process deleted" (load after v))

unfoldable pub toggle_select : ℕ → ProcessesPage → ProcessesPage
unfolding toggle_id
toggle_select id v = record v { selected = toggle_id id v.selected }

unfoldable pub toggle_select_all : ProcessesPage → ProcessesPage
unfolding toggle_all
toggle_select_all v = record v {
  selected = toggle_all (map (λ (p : Process). p.id) v.items) v.selected;
}

-- `handleBulkDelete`
unfoldable pub handle_bulk_delete :
    (ℕ → Option String) → Loaded → Bool → ProcessesPage → List ℕ × ProcessesPage
unfolding load delete_each report show_nat
handle_bulk_delete answer after confirmed v =
    if length v.selected == 0 || not confirmed
    then ([], v)
    else (let (count, errors) = delete_each (λ id. "process " +++ show_nat id) answer v.selected in
        (
          v.selected,
          load after (record (say (report "process" count errors).0 v) { selected = [] }),
        ))

abbrev ref_version : Option PackageRef → String
ref_version none = ""
ref_version (some r) = r.version

abbrev can_upgrade : Process → Bool
can_upgrade p =
    p.upgrade_available
    && not (is_empty (ref_version p.of_package))
    && not (is_empty (or_default p.latest_version ""))

-- `handleUpgradeToLatest`
unfoldable pub upgrade :
    (ℕ → Option String) → Loaded → Bool → Process → ProcessesPage → List ℕ × ProcessesPage
unfolding load
upgrade answer after confirmed p v =
    if not (can_upgrade p) || not confirmed
    then ([], v)
    else if is_some (answer p.id)
    then (p.id ∷ [], say "Upgrade failed" v)
    else (p.id ∷ [], say ("Upgraded to " +++ or_default p.latest_version "") (load after v))

unfoldable pub open_trigger : ℕ → ProcessesPage → ProcessesPage
open_trigger id v = record v { trigger_process_id = some id; trigger_modal_open = true }

-- the hashes of the row's menu
unfoldable pub jobs_trigger_hash : ℕ → String
unfolding show_nat
jobs_trigger_hash id = "#/automations/jobs?processId=" +++ show_nat id +++ "&trigger=true"

unfoldable pub jobs_hash : ℕ → String
unfolding show_nat
jobs_hash id = "#/automations/jobs?processId=" +++ show_nat id

unfoldable pub logs_hash : ℕ → String
unfolding show_nat
logs_hash id = "#/automations/logs?processId=" +++ show_nat id

-- The text after the dot at its beginning, with no further dot and no slash, is an extension.
abbrev pub is_extension : String → Bool
is_extension String.[] = true
is_extension (String.◌∷◌ c s) = not (code c == b'.') && not (code c == b'/') && is_extension s

-- `s.replace(/\.[^/.]+$/, '')`
unfoldable pub without_extension : String → String
without_extension String.[] = String.[]
without_extension (String.◌∷◌ c s) =
    let rest = without_extension s in
    if code c == b'.' && not (is_empty s) && is_extension s then String.[] else String.◌∷◌ c rest

-- `s.split(/[/\\]/).pop()`
unfoldable pub last_part : String → String → String
last_part cur String.[] = cur
last_part cur (String.◌∷◌ c s) =
    let closed = last_part "" s in
    let longer = last_part (cur +++ String.◌∷◌ c String.[]) s in
    if code c == b'/' || code c == b'\\' then closed else longer

abbrev pub is_bvpackage : Option PackageRef → Bool
is_bvpackage none = false
is_bvpackage (some r) = r.is_bvpackage

unfoldable pub entrypoint_label : Process → String
unfolding without_extension last_part
entrypoint_label p =
    if is_bvpackage p.of_package
    then (if is_empty (or_default p.entrypoint_name "")
        then "Entrypoint missing"
        else without_extension (or_default p.entrypoint_name ""))
    else if is_empty p.script_path
    then "Script not set"
    else without_extension (or_text (last_part "" p.script_path) p.script_path)
