-- ===== src/QueueItems/Tests.antt =====
-- The queue items' page on concrete items (QueueItemsPage.tsx).
use bv_orchestrator.QueueItems.{
  new, QueueItem, Page, descending, status_key, selectable_items, visible_items, filtered_items,
}
use bv_orchestrator.Common.{
  ◌==◌, nat_eq, string_eq, if◌then◌else◌, length, ℕ, String, ◌≡◌, refl, ◌≢◌, Option, none, some, [],
  ◌∷◌, map, arith,
}

page : Unit {0}
unfolding status_key visible_items filtered_items selectable_items
page = tt

abbrev item : String → ℕ → QueueItem
item id priority = record {
  id = id;
  queue_id = "q";
  reference = none;
  status = new;
  priority = priority;
  payload = none;
  error_message = none;
  retries = 0;
  locked_by_robot_id = none;
  locked_at = none;
  created_at = "";
  updated_at = "";
}

abbrev shown : Page
shown = record {
  items = item "a" 1 ∷ item "b" 3 ∷ item "c" 2 ∷ [];
  selected = [];
  menu_open_id = none;
  priority_filter = none;
  priority_sort = descending;
  said = [];
}

order_test : map (λ (x : QueueItem). x.id) (visible_items shown) ≡ "b" ∷ "c" ∷ "a" ∷ []
unfolding page
order_test = refl

item_new : status_key (item "b" 3) ≡ "new"
unfolding page
item_new = refl

none_selected : length shown.selected ≢ length (selectable_items shown)
unfolding page
none_selected h = omega (arith, h)

abbrev answer : String → Option String
answer id = if id == "a" then none else some "locked"
