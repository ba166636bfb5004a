-- ===== src/Queues/Selection.antt =====
-- The selection of the queues' page (QueuesPage.tsx).
use bv_orchestrator.Queues.{
  Queue, QueuesPage, ids, Loaded, load_start, queues_came, stats_came, say, toggle_select,
  toggle_select_all, handle_delete, bulk_report, bulk_end,
}
use bv_orchestrator.Common.{
  ltb, nat_eq, string_eq, get_elem?, every, has, ℕ, String, ◌≡◌, Bool, true, ◌||◌, Option, none,
  some, List, [], ◌∷◌,
}

-- What happens to the page: a click on the box of a row or on the box of all rows, the steps of a load and of
-- the deletions, and what they say at their end. They may come in any order.
pub data QueueEvent : Type 0 where
  row_toggled : (row : ℕ) → QueueEvent
  all_toggled : QueueEvent
  load_started : QueueEvent
  queues_shown : Loaded → QueueEvent
  stats_shown : QueueEvent
  deleted_one : (answer : String → Option String) → Bool → (id : String) → QueueEvent
  bulk_reported : (answer : String → Option String) → (deleted : List String) → QueueEvent
  bulk_ended : QueueEvent
  told : (title : String) → QueueEvent

abbrev toggle_row : Option Queue → QueuesPage → QueuesPage
toggle_row none v = v
toggle_row (some q) v = toggle_select q.external_id v

unfoldable pub step : QueuesPage → QueueEvent → QueuesPage
unfolding toggle_select toggle_select_all load_start queues_came stats_came handle_delete
    bulk_report bulk_end
step v (row_toggled i) = toggle_row (get_elem? v.items i) v
step v all_toggled = toggle_select_all v
step v load_started = load_start v
step v (queues_shown l) = queues_came l v
step v stats_shown = stats_came v
step v (deleted_one answer confirmed id) = (handle_delete answer confirmed id v).1
step v (bulk_reported answer deleted) = bulk_report answer deleted v
step v bulk_ended = bulk_end v
step v (told title) = say title v

unfoldable pub run : QueuesPage → List QueueEvent → QueuesPage
unfolding step
run v [] = v
run v (e ∷ es) = run (step v e) es

-- Every id is one of the list.
abbrev pub are_listed : List String → List Queue → Bool
are_listed selected qs = every (λ id. has id (ids qs)) selected

-- The page shows every queue that is selected, or a load waits for the statistics.
abbrev pub IsListed : QueuesPage → Type 0
IsListed v = (ltb 0 v.waiting || are_listed v.selected v.items) ≡ true
