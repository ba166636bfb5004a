-- ===== src/Jobs.antt =====
-- JobsPage.tsx: the filter of the jobs, their durations, and the pages of the list. A date is the
-- number of milliseconds that `new Date(text).getTime()` gives, and `none` where that is NaN.
pub mod Paging
pub mod Tests
pub mod Requests
pub mod Order
pub mod Ordered
pub mod Fresh
use bv_orchestrator.Common.{
  ltb, leb, ◌==◌, nat_eq, string_eq, if◌then◌else◌, length, take, drop, keep, ◌+++◌, is_empty,
  text_or, trim, to_lower, includes, join, show_nat, ℕ, ◌+◌, ◌-◌, ◌*◌, ◌/◌, ◌%◌, String, Bool, true,
  false, not, ◌&&◌, Option, none, some, List, [], ◌∷◌,
}

pub data JobStatus : Type 0 where
  pending running completed failed canceled : JobStatus

pub record Job : Type 0 where
  pub id : ℕ
  pub status : JobStatus
  pub source : Option String
  pub process_name : Option String
  pub hostname : Option String
  pub machine_name : Option String
  pub machine_info : Option String
  pub robot_name : Option String
  pub created_at : Option ℕ
  pub started_at : Option ℕ
  pub finished_at : Option ℕ

pub data TimeRange : Type 0 where
  day week all : TimeRange

pub record Filters : Type 0 where
  pub source : String
  pub time_range : TimeRange
  pub search : String

-- `Math.max(0, f - s)` in seconds, rounded to the nearest, as minutes and seconds
abbrev pub seconds : ℕ → ℕ → ℕ
seconds s f = (f - s + 500) / 1000

unfoldable pub duration : Job → String
unfolding show_nat
duration j = elim j.started_at [
  | none ↦ "-"
  | some s ↦ elim j.finished_at [
    | none ↦ "Running"
    | some f ↦ show_nat (seconds s f / 60) +++ "m " +++ show_nat (seconds s f % 60) +++ "s"
  ]
]

abbrev source_label : Job → String
source_label j = text_or j.source "Manual"

abbrev host_label : Job → String
host_label j =
    text_or j.hostname (text_or j.machine_name (text_or j.machine_info (text_or j.robot_name "-")))

abbrev window_ms : TimeRange → Option ℕ
window_ms day = some 86400000
window_ms week = some 604800000
window_ms all = none

abbrev too_old : ℕ → Option ℕ → Option ℕ → Bool
too_old now none created = false
too_old now (some window) none = false
too_old now (some window) (some created) = ltb window (now - created)

-- `[j.process?.name, hostname(j), String(j.id)].filter(Boolean).join(' ')`
unfoldable pub hay : Job → String
unfolding join show_nat
hay j =
    join " "
      (keep (λ s. not (is_empty s)) (text_or j.process_name "" ∷ host_label j ∷ show_nat j.id ∷ []))

unfoldable pub passes : ℕ → Filters → Job → Bool
unfolding hay to_lower trim
passes now f j =
    if not (is_empty f.source) && not (source_label j == f.source)
    then false
    else if too_old now (window_ms f.time_range) j.created_at
    then false
    else if not (is_empty (trim f.search))
        && not (includes (to_lower (hay j)) (to_lower (trim f.search)))
    then false
    else true

unfoldable pub filtered : ℕ → Filters → List Job → List Job
unfolding passes
filtered now f jobs = keep (passes now f) jobs

-- `Math.max(1, Math.ceil(n / size))`
abbrev pub page_count : ℕ → ℕ → ℕ
page_count size n = if ltb ((n + size - 1) / size) 1 then 1 else (n + size - 1) / size

-- `Math.min(page, pageCount - 1)`
unfoldable pub current_page : ℕ → ℕ → ℕ → ℕ
current_page size n page = if ltb (page_count size n - 1) page then page_count size n - 1 else page

-- `filtered.slice(currentPage * pageSize, currentPage * pageSize + pageSize)`
unfoldable pub visible : ℕ → ℕ → List Job → List Job
unfolding current_page
visible size page jobs = take size (drop (current_page size (length jobs) page * size) jobs)

-- The buttons below the list, and their `disabled`
unfoldable pub previous : ℕ → ℕ → ℕ → ℕ
unfolding current_page
previous size n page = if current_page size n page == 0 then page else current_page size n page - 1

unfoldable pub next : ℕ → ℕ → ℕ → ℕ
unfolding current_page
next size n page =
    if leb (page_count size n - 1) (current_page size n page)
    then page
    else if ltb (page_count size n - 1) (current_page size n page + 1)
    then page_count size n - 1
    else current_page size n page + 1
