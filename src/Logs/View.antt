-- ===== src/Logs/View.antt =====
-- The pages of the logs, their inputs and requests (LogsView.tsx, the global logs). The effect that loads them
-- runs after a render in which a filter, the order or the size of a page has changed; the offset is not one
-- of the values it watches.
use bv_orchestrator.Logs.{LogEntry}
use bv_orchestrator.Jobs.{current_page}
use bv_orchestrator.Jobs.Paging.{start_lt}
use bv_orchestrator.Common.{
  nat_eq, string_eq, take, drop, ℕ, ◌+◌, ◌-◌, ◌*◌, ◌/◌, ◌≤◌, ◌<◌, String, Bool, not, Option, none,
  List, ◌∷◌,
}

-- what a request is made with, but for the time range
pub record LogLoad : Type 0 where
  pub level : String
  pub process_id : Option ℕ
  pub machine_id : Option ℕ
  pub host_identity : Option String
  pub search : String
  pub limit : ℕ
  pub offset : ℕ
  pub descending : Bool

-- The state of the view: what the next request asks for, what the last one has brought, and the requests that
-- were made, the newest first.
pub record LogsView : Type 0 where
  pub query : LogLoad
  pub logs : List LogEntry
  pub total : ℕ
  pub error : Option String
  pub asked : List LogLoad

abbrev pub ask : LogLoad → LogsView → LogsView
ask q v = record v { error = none; asked = q ∷ v.asked }

abbrev at_start : LogLoad → LogLoad
at_start q = record q { offset = 0 }

-- An input that changes a value which the effect watches: it sets the offset to 0, and the effect asks.
abbrev pub changed : LogLoad → LogsView → LogsView
changed q v = ask (at_start q) (record v { query = at_start q })

pub data LogInput : Type 0 where
  type_search : (value : String) → LogInput
  choose_level : (value : String) → LogInput
  choose_process choose_machine : (value : Option ℕ) → LogInput
  choose_host : (value : Option String) → LogInput
  choose_limit : (n : ℕ) → LogInput
  toggle_order : LogInput

-- the value of an input, which is another than the one before
unfoldable pub input_query : LogInput → LogLoad → LogLoad
input_query (type_search s) q = record q { search = s }
input_query (choose_level l) q = record q { level = l }
input_query (choose_process p) q = record q { process_id = p }
input_query (choose_machine m) q = record q { machine_id = m }
input_query (choose_host h) q = record q { host_identity = h }
input_query (choose_limit n) q = record q { limit = n }
input_query toggle_order q = record q { descending = not q.descending }

unfoldable pub input : LogInput → LogsView → LogsView
unfolding input_query
input i v = changed (input_query i v.query) v

-- the button Refresh below the rows, and the arrow beside the title, whose request is made before its offset is set
abbrev pub refresh : LogsView → LogsView
refresh v = ask v.query v

abbrev pub refresh_first : LogsView → LogsView
refresh_first v = ask v.query (record v { query = at_start v.query })

-- the end of `load`
abbrev pub logs_came : List LogEntry → ℕ → LogsView → LogsView
logs_came rows total v = record v { logs = rows; total = total }

-- `pageIndex`
abbrev pub page_index : LogsView → ℕ
page_index v = v.query.offset / v.query.limit

pub data Turn : Type 0 where
  backward forward : Turn

abbrev turned : Turn → ℕ → ℕ
turned backward i = i - 1
turned forward i = i + 1

-- `goPage`
unfoldable pub go_page : Turn → LogsView → LogsView
unfolding current_page
go_page t v = record v {
  query = record v.query {
    offset = current_page v.query.limit v.total (turned t (page_index v)) * v.query.limit;
  };
}

-- `visibleLogs` of the logs of a job
abbrev pub visible_logs : LogsView → List LogEntry
visible_logs v = take v.query.limit (drop v.query.offset v.logs)

-- Whatever the offset was and whichever way the page is turned: if there is a log, the page that is turned to
-- begins before the last of them.
go_page_lem :
    (t : Turn) (v : LogsView)
    → 1 ≤ v.query.limit
    → 1 ≤ v.total
    → (go_page t v).query.offset < v.total
unfolding go_page
go_page_lem t v h k = start_lt v.query.limit v.total (turned t (page_index v)) h k
