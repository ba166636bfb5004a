-- ===== src/Jobs/Tests.antt =====
-- Lists of jobs of a few pages (JobsPage.tsx).
use bv_orchestrator.Jobs.{
  Job, Filters, completed, failed, day, duration, filtered, visible, next, previous,
}
use bv_orchestrator.Jobs.Order.{by_id, desc, filter_and_sort, sort_value}
use bv_orchestrator.Jobs.Requests.{JobsPage, query_of}
use bv_orchestrator.Jobs.Fresh.{IsFresh, input, reset, agrees, stale, input-IsFresh}
use bv_orchestrator.Common.{
  nat_eq, string_eq, if◌then◌else◌, length, ℕ, ◌≡◌, refl, ◌↔◌, true, false, none, some, List, [],
  ◌∷◌, map,
}

view : Unit {0}
unfolding visible filtered duration next previous filter_and_sort sort_value
view = tt

abbrev job : ℕ → Job
job id = record {
  id = id;
  status = completed;
  source = none;
  process_name = some "Invoices";
  hostname = none;
  machine_name = some "RPA-1";
  machine_info = none;
  robot_name = none;
  created_at = some 1000;
  started_at = some 1000;
  finished_at = some 92600;
}

abbrev jobs : List Job
jobs = job 1 ∷ job 2 ∷ job 3 ∷ []

jobs_tests :
    (map (λ (j : Job). j.id) (visible 2 9 jobs) ≡ 3 ∷ [])
    × (duration (job 1) ≡ "1m 32s")
    × (length (filtered 2000 (record { source = ""; time_range = day; search = " rpa-1 2" }) jobs)
        ≡ 1)
    × (length (filtered 99999999 (record { source = ""; time_range = day; search = "" }) jobs) ≡ 0)
unfolding view
jobs_tests = (refl, refl, refl, refl)

abbrev shown : JobsPage
shown = record {
  status = some failed;
  process_id = some 7;
  search = "";
  source = "";
  time_range = day;
  page = 0;
  modal_open = false;
  modal_default = none;
  lock_process = false;
  said = [];
}

input-IsFresh_example :
    ((IsFresh (input reset shown)) ↔ (agrees reset shown ≡ true))
    × ((input reset shown).1
        ≡ (if agrees reset shown then some (query_of (input reset shown).0) else stale reset shown))
input-IsFresh_example = input-IsFresh reset shown

abbrev any_text : Filters
any_text = record { source = ""; time_range = day; search = "" }

order_test :
    map (λ (j : Job). j.id) (filter_and_sort 2000 any_text by_id desc jobs) ≡ 3 ∷ 2 ∷ 1 ∷ []
unfolding view
order_test = refl
