-- ===== src/Jobs/Requests.antt =====
-- JobsPage.tsx: the filters with what is asked of the server, the dialog that starts a job, and the
-- actions on a job. A handler reads the state of the render that it belongs to.
use bv_orchestrator.Jobs.{JobStatus, TimeRange, day}
use bv_orchestrator.Common.{
  ◌==◌, nat_eq, string_eq, if◌then◌else◌, or_default, or_text, trim, ℕ, String, Bool, true, false,
  not, Option, none, some, List, [], ◌∷◌,
}

pub record JobsPage : Type 0 where
  pub status : Option JobStatus
  pub process_id : Option ℕ
  pub search : String
  pub source : String
  pub time_range : TimeRange
  pub page : ℕ
  pub modal_open : Bool
  pub modal_default : Option ℕ
  pub lock_process : Bool
  pub said : List String

abbrev pub say : String → JobsPage → JobsPage
say title v = record v { said = title ∷ v.said }

-- the arguments of `fetchJobs`
pub record JobQuery : Type 0 where
  pub status : Option JobStatus
  pub process_id : Option ℕ

-- the jobs that the filters of a page stand for
abbrev pub query_of : JobsPage → JobQuery
query_of v = record { status = v.status; process_id = v.process_id }

-- `load(next)`: the parameter has the page's process as its default, also for an argument that is undefined.
unfoldable pub load : Option ℕ → JobsPage → JobQuery
load none v = query_of v
load (some id) v = record { status = v.status; process_id = some id }

abbrev pub Asked : Type 0
Asked = JobsPage × Option JobQuery

-- `handleSearchSubmit`
unfoldable pub search_submit : JobsPage → Asked
unfolding load trim
search_submit v = (record v { search = trim v.search; page = 0 }, some (load v.process_id v))

-- `resetFilters`
unfoldable pub reset_filters : JobsPage → Asked
unfolding load
reset_filters v = (
  record v {
    status = none;
    source = "";
    time_range = day;
    search = "";
    process_id = none;
    page = 0;
  },
  some (load none v),
)

-- the select of the state, which asks for nothing
unfoldable pub choose_status : Option JobStatus → JobsPage → Asked
choose_status s v = (record v { status = s; page = 0 }, none)

-- the select of the process
unfoldable pub choose_process : Option ℕ → JobsPage → Asked
unfolding load
choose_process p v = (record v { process_id = p; page = 0 }, some (load p v))

-- The first effect, at the parameters of the hash.
unfoldable pub opened_at :
    (source : Option String) (process : Option ℕ) (trigger : Bool) → JobsPage → Asked
unfolding load
opened_at source process trigger v =
    let asked = some (load process v) in
    let hydrated : JobsPage = record v {
      source = or_text (or_default source "") v.source;
      process_id = or_option process v.process_id;
    } in
    (
      if trigger
          then record hydrated {
            modal_default = process;
            lock_process = is_set process;
            modal_open = true;
          }
          else hydrated,
      asked,
    )
  where
    -- `Boolean(pid)`
    is_set : Option ℕ → Bool
    is_set none = false
    is_set (some n) = not (n == 0)

    or_option : Option ℕ → Option ℕ → Option ℕ
    or_option none q = q
    or_option (some n) q = some n

unfoldable pub open_new : JobsPage → JobsPage
open_new v = record v { lock_process = false; modal_default = v.process_id; modal_open = true }

unfoldable pub close_modal : JobsPage → JobsPage
close_modal v = record v { modal_open = false; modal_default = none; lock_process = false }

-- the form of the dialog
pub record JobForm : Type 0 where
  pub process_id : Option ℕ
  pub robot_id : Option ℕ

-- `handleProcessChange`
unfoldable pub process_change : Bool → Option ℕ → JobForm → JobForm
process_change lock p form = if lock then form else record form { process_id = p }

-- the body of `createJob`
pub record JobPayload : Type 0 where
  pub process_id : ℕ
  pub robot_id : Option ℕ

-- `submit` of the dialog
unfoldable pub submit_job : JobForm → Option JobPayload
submit_job form = elim form.process_id [
  | none ↦ none
  | some id ↦ if id == 0 then none else some (record { process_id = id; robot_id = form.robot_id })
]

-- The rest of `handleTrigger`, on the error of the server, if any.
unfoldable pub trigger_finish : Option String → JobsPage → Asked
unfolding close_modal load
trigger_finish none v = (say "Job started" (close_modal v), some (load v.process_id v))
trigger_finish (some e) v = (say "Trigger failed" v, none)

-- `handleStop` and `handleKill`, which differ in what they say
unfoldable pub action_finish : (done not_done : String) → Option String → JobsPage → Asked
unfolding load
action_finish done not_done none v = (say done v, some (load v.process_id v))
action_finish done not_done (some e) v = (say not_done v, none)

-- `confirmKill`: the request to kill is sent only when the user has confirmed
unfoldable pub confirm_kill : Bool → (ℕ → Option String) → ℕ → JobsPage → List ℕ × Asked
unfolding action_finish
confirm_kill confirmed answers id v =
    if not confirmed
    then ([], (v, none))
    else (id ∷ [], action_finish "Job kill requested" "Kill failed" (answers id) v)
