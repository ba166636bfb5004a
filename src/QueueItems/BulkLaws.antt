-- ===== src/QueueItems/BulkLaws.antt =====
-- What a bulk deletion reports (QueueItemsPage.tsx).
use bv_orchestrator.QueueItems.Bulk.{delete_all}
use bv_orchestrator.Bulk.{deleted_ids, delete_each_lem}
use bv_orchestrator.Common.{nat_eq, string_eq, length, ◌+++◌, ◌+◌, String, ◌≡◌, Option, List}

-- Every id that was selected is either counted as deleted or has its error: the count is the number of
-- the ids that the server deleted, and the count and the errors together are as many as the ids.
delete_all_lem :
    (answer : String → Option String) (ids : List String)
    → ((delete_all answer ids).0 ≡ length (deleted_ids answer ids))
      × ((delete_all answer ids).0 + length (delete_all answer ids).1 ≡ length ids)
unfolding delete_all
delete_all_lem answer ids = delete_each_lem (λ id. "item " +++ id) answer ids
