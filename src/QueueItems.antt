-- ===== src/QueueItems.antt =====
-- QueueItemsPage.tsx: the items of a queue as the page keeps them, its optimistic changes and their
-- rollback, the selection, and the visible items; types/queueItem.ts.
pub mod Rollback
pub mod Sorting
pub mod Selection
pub mod Tests
pub mod Bulk
pub mod BulkLaws
pub mod NewItem
pub mod NewItemTests
use bv_orchestrator.Json.{Json}
use bv_orchestrator.Common.Sorting.{sort}
use bv_orchestrator.Common.{
  ltb, ◌==◌, nat_eq, string_eq, if◌then◌else◌, or_default, length, keep, has, is_empty, or_text,
  to_lower, ℕ, String, Bool, true, false, not, Option, none, some, List, [], ◌∷◌, ◌++◌, map,
}

pub data QueueItemStatus : Type 0 where
  new in_progress completed failed deleted : QueueItemStatus

abbrev pub status_text : QueueItemStatus → String
status_text new = "new"
status_text in_progress = "in_progress"
status_text completed = "completed"
status_text failed = "failed"
status_text deleted = "deleted"

pub record QueueItem : Type 0 where
  pub id : String
  pub queue_id : String
  pub reference : Option String
  pub status : QueueItemStatus
  pub priority : ℕ
  pub payload : Option Json
  pub error_message : Option String
  pub retries : ℕ
  pub locked_by_robot_id : Option ℕ
  pub locked_at : Option String
  pub created_at : String
  pub updated_at : String

pub data PrioritySort : Type 0 where
  unsorted ascending descending : PrioritySort

-- The state of the page; `said` are the titles of its toasts and alerts, the newest first.
pub record Page : Type 0 where
  pub items : List QueueItem
  pub selected : List String
  pub menu_open_id : Option String
  pub priority_filter : Option ℕ
  pub priority_sort : PrioritySort
  pub said : List String

pub data Request : Type 0 where
  update_status : (id : String) → QueueItemStatus → Request
  create_item :
      (queue_id : String) (reference : Option String) (priority : ℕ) (payload : Option Json)
      → Request

unfoldable pub status_key : QueueItem → String
unfolding to_lower
status_key it = to_lower (status_text it.status)

abbrev pub close_menu : Page → Page
close_menu v = record v { menu_open_id = none }

abbrev pub say : String → Page → Page
say title v = record v { said = title ∷ v.said }

abbrev pub without : String → List QueueItem → List QueueItem
without id items = keep (λ (x : QueueItem). not (x.id == id)) items

-- `handleRemove` up to its `await`
unfoldable pub remove_start : QueueItem → Page → Page × Option Request
unfolding status_key
remove_start it v =
    if not (status_key it == "new")
    then (close_menu v, none)
    else (record v { items = without it.id v.items }, some (update_status it.id deleted))

-- The rest of it, on the error of the server, if any; `previous` are the items at its beginning.
unfoldable pub remove_finish : List QueueItem → Option String → Page → Page
remove_finish previous none v = close_menu (say "Queue item removed" v)
remove_finish previous (some e) v = close_menu (say "Remove failed" (record v { items = previous }))

-- `it.queueId || queueId`
abbrev pub target_queue : QueueItem → Option String → Option String
target_queue it queue_id =
    let id = or_text it.queue_id (or_default queue_id "") in if is_empty id then none else some id

-- `it.reference || undefined`
abbrev pub given : Option String → Option String
given none = none
given (some s) = if is_empty s then none else some s

abbrev pub place_copy :
    Option String → String → QueueItem → QueueItem → Page → Page × Option Request
place_copy none missing it temp v = (close_menu (say missing v), none)
place_copy (some queue) missing it temp v = (
  record v { items = temp ∷ v.items },
  some (create_item queue (given it.reference) it.priority it.payload),
)

-- `handleClone` up to its `await`; `temp_id` and `now` are of the clock.
unfoldable pub clone_start :
    Option String → String → String → QueueItem → Page → Page × Option Request
unfolding status_key
clone_start queue_id temp_id now it v =
    if not (status_key it == "new")
    then (close_menu v, none)
    else place_copy (target_queue it queue_id) "Queue missing" it
        (record it {
          id = temp_id;
          status = new;
          retries = 0;
          locked_at = none;
          locked_by_robot_id = none;
          created_at = now;
          updated_at = now;
        })
        v

-- `handleRetry` up to its `await`
unfoldable pub retry_start :
    Option String → String → String → QueueItem → Page → Page × Option Request
unfolding status_key
retry_start queue_id temp_id now it v =
    if not (status_key it == "failed")
    then (close_menu v, none)
    else place_copy (target_queue it queue_id) "Queue missing" it
        (record it {
          id = temp_id;
          status = new;
          retries = 0;
          error_message = none;
          locked_at = none;
          locked_by_robot_id = none;
          created_at = now;
          updated_at = now;
        })
        v

pub data Created : Type 0 where
  created : QueueItem → Created
  refused : (message : String) → Created

-- The rest of `handleClone` and of `handleRetry`, which differ in what they say.
unfoldable pub copy_finish : (done not_done : String) → String → Created → Page → Page
copy_finish done not_done temp_id (created it) v =
    close_menu (say done (record v { items = it ∷ without temp_id v.items }))
copy_finish done not_done temp_id (refused e) v =
    close_menu (say not_done (record v { items = without temp_id v.items }))

-- `load`, when the items have come
unfoldable pub loaded : List QueueItem → Page → Page
loaded items v = record v { items = items; selected = [] }

-- `toggleSelect`
unfoldable pub toggle_select : String → Page → Page
toggle_select id v = record v {
  selected =
      if has id v.selected then keep (λ x. not (x == id)) v.selected else v.selected ++ (id ∷ []);
}

-- `togglePrioritySort`
abbrev next_sort : PrioritySort → PrioritySort
next_sort unsorted = descending
next_sort descending = ascending
next_sort ascending = unsorted

unfoldable pub toggle_priority_sort : Page → Page
toggle_priority_sort v = record v { priority_sort = next_sort v.priority_sort }

abbrev passes : Option ℕ → QueueItem → Bool
passes none it = true
passes (some p) it = it.priority == p

unfoldable pub filtered_items : Page → List QueueItem
filtered_items v = keep (passes v.priority_filter) v.items

-- `a.priority - b.priority > 0`, and the other way round
abbrev pub by_priority : PrioritySort → QueueItem → QueueItem → Bool
by_priority descending a b = ltb a.priority b.priority
by_priority _ a b = ltb b.priority a.priority

abbrev pub sorted_by : PrioritySort → List QueueItem → List QueueItem
sorted_by unsorted items = items
sorted_by ascending items = sort (by_priority ascending) items
sorted_by descending items = sort (by_priority descending) items

unfoldable pub visible_items : Page → List QueueItem
unfolding filtered_items
visible_items v = sorted_by v.priority_sort (filtered_items v)

abbrev is_deleted : QueueItemStatus → Bool
is_deleted deleted = true
is_deleted _ = false

unfoldable pub selectable_items : Page → List QueueItem
unfolding visible_items
selectable_items v = keep (λ (it : QueueItem). not (is_deleted it.status)) (visible_items v)

-- `toggleSelectAll`
unfoldable pub toggle_select_all : Page → Page
unfolding selectable_items
toggle_select_all v = record v {
  selected =
      if length v.selected == length (selectable_items v)
      then []
      else map (λ (it : QueueItem). it.id) (selectable_items v);
}
