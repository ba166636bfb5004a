-- ===== src/QueueItems/Bulk.antt =====
-- QueueItemsPage.tsx: `handleBulkDelete`, once the user has confirmed it. `answer` is the server's to
-- the deletion of an id: the error, if any.
use bv_orchestrator.QueueItems.{Page, say}
use bv_orchestrator.Bulk.{delete_each, report}
use bv_orchestrator.Common.{
  ◌==◌, nat_eq, string_eq, if◌then◌else◌, length, ◌+++◌, ℕ, String, Option, List, [],
}

-- The loop: the count of successes, and the messages of the errors.
unfoldable pub delete_all : (String → Option String) → List String → ℕ × List String
unfolding delete_each
delete_all answer ids = delete_each (λ id. "item " +++ id) answer ids

-- The requests that are sent, in order, and the page afterwards, before it loads its items again.
unfoldable pub handle_bulk_delete : (String → Option String) → Page → List String × Page
unfolding delete_all report
handle_bulk_delete answer v =
    let (count, errors) = delete_all answer v.selected in
    (
      v.selected,
      if length v.selected == 0
          then v
          else record (say (report "item" count errors).0 v) { selected = [] },
    )
