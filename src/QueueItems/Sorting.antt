-- ===== src/QueueItems/Sorting.antt =====
-- The order of the visible items (QueueItemsPage.tsx).
use bv_orchestrator.QueueItems.{
  QueueItem, PrioritySort, unsorted, ascending, descending, by_priority,
}
use bv_orchestrator.Common.Sorting.{IsSorted}
use bv_orchestrator.Common.{nat_eq, string_eq, List}

abbrev pub IsOrdered : PrioritySort → List QueueItem → Type 0
IsOrdered unsorted xs = Unit
IsOrdered ascending xs = IsSorted (by_priority ascending) xs
IsOrdered descending xs = IsSorted (by_priority descending) xs
