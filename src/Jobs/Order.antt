-- ===== src/Jobs/Order.antt =====
-- The order of the jobs (JobsPage.tsx): the value of a job under each heading, and the sort by it.
use bv_orchestrator.Jobs.{
  Job, JobStatus, pending, running, completed, failed, canceled, Filters, filtered,
}
use bv_orchestrator.Common.Sorting.{sort}
use bv_orchestrator.Common.{
  ltb, ◌==◌, nat_eq, string_eq, if◌then◌else◌, or_default, ℕ, code, String, Bool, true, false, not,
  ◌&&◌, ◌||◌, Option, none, some, List,
}

pub data SortKey : Type 0 where
  by_started by_ended by_status by_process by_id : SortKey

pub data SortDir : Type 0 where
  asc desc : SortDir

-- A number, which is NaN where there is none, or a text.
pub data SortValue : Type 0 where
  number : Option ℕ → SortValue
  words : String → SortValue

abbrev job_status_text : JobStatus → String
job_status_text pending = "pending"
job_status_text running = "running"
job_status_text completed = "completed"
job_status_text failed = "failed"
job_status_text canceled = "canceled"

abbrev first_date : Option ℕ → Option ℕ → Option ℕ
first_date (some t) d = some t
first_date none d = d

-- `sortValue`
unfoldable pub sort_value : SortKey → Job → SortValue
sort_value by_started j = number (first_date j.started_at j.created_at)
sort_value by_ended j = number (first_date j.finished_at (some 0))
sort_value by_status j = words (job_status_text j.status)
sort_value by_process j = words (or_default j.process_name "")
sort_value by_id j = number (some j.id)

-- `s > t` of texts: at the first place where they differ, or by their lengths
unfoldable pub text_gt : String → String → Bool
text_gt String.[] t = false
text_gt (String.◌∷◌ c s) String.[] = true
text_gt (String.◌∷◌ c s) (String.◌∷◌ d t) =
    ltb (code d) (code c) || (code c == code d) && text_gt s t

-- `va > vb`
unfoldable pub greater : SortValue → SortValue → Bool
unfolding text_gt
greater (number (some m)) (number (some n)) = ltb n m
greater (words s) (words t) = text_gt s t
greater _ _ = false

-- `va === vb`
unfoldable pub same : SortValue → SortValue → Bool
same (number (some m)) (number (some n)) = m == n
same (words s) (words t) = s == t
same _ _ = false

-- The comparison of two jobs is above 0.
abbrev pub comes_after : SortDir → SortValue → SortValue → Bool
comes_after asc va vb = not (same va vb) && greater va vb
comes_after desc va vb = not (same va vb) && not (greater va vb)

unfoldable pub after : SortKey → SortDir → Job → Job → Bool
unfolding sort_value greater same
after key dir a b = comes_after dir (sort_value key a) (sort_value key b)

-- `applyFiltersAndSort`
unfoldable pub filter_and_sort : ℕ → Filters → SortKey → SortDir → List Job → List Job
unfolding after
filter_and_sort now f key dir jobs = sort (after key dir) (filtered now f jobs)

-- `toggleSort`
unfoldable pub toggle_sort : SortKey → SortKey × SortDir → SortKey × SortDir
toggle_sort key (by, dir) = if same_key by key then (by, turned dir) else (key, desc)
  where
    turned : SortDir → SortDir
    turned asc = desc
    turned desc = asc

    key_index : SortKey → ℕ
    key_index by_started = 0
    key_index by_ended = 1
    key_index by_status = 2
    key_index by_process = 3
    key_index by_id = 4

    same_key : SortKey → SortKey → Bool
    same_key a b = key_index a == key_index b
