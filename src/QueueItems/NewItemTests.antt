-- ===== src/QueueItems/NewItemTests.antt =====
-- The window of a new item on concrete payloads (QueueItemsPage.tsx).
use bv_orchestrator.Json.{Json, obj, end, num}
use bv_orchestrator.QueueItems.NewItem.{
  NewItem, new_item, handle_change, parse_payload, submit_item, duplicate, item_answered,
  submit_item_iff,
}
use bv_orchestrator.Common.Number.{int}
use bv_orchestrator.Common.Int.{pos}
use bv_orchestrator.Common.{
  ◌==◌, nat_eq, string_eq, if◌then◌else◌, is_some, trim, String, ◌≡◌, refl, true, false, Option,
  none, some, [], ◌∷◌,
}

window : Unit {0}
unfolding handle_change parse_payload submit_item item_answered trim
window = tt

-- a reader of two texts
abbrev parse : String → Option Json
parse t = if t == "{}" then some (obj end) else if t == "0" then some (num (int (pos 0))) else none

abbrev with_payload : String → NewItem
with_payload t = record new_item { form = record new_item.form { payload_text = t } }

silent_test :
    ((submit_item parse "q" (with_payload "  ")).0 ≡ none)
    × ((submit_item parse "q" (with_payload "  ")).1.said ≡ [])
    × ((submit_item parse "q" (with_payload "0")).1.said ≡ [])
    × ((submit_item parse "q" (with_payload "{")).1.said ≡ "Invalid JSON" ∷ [])
    × (is_some (submit_item parse "q" (with_payload " {}")).0 ≡ true)
unfolding window
silent_test = (refl, refl, refl, refl, refl)

answered_test :
    item_answered (duplicate none) new_item
    ≡ some (record new_item { error = some "Duplicate reference" })
unfolding window
answered_test = refl

submit_item_iff_example :
    (is_some (submit_item parse "q" (with_payload "  ")).0 ≡ false)
    × ((submit_item parse "q" (with_payload "  ")).1 ≡ with_payload "  ")
unfolding window
submit_item_iff_example = submit_item_iff parse "q" (with_payload "  ")
