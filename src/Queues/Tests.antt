-- ===== src/Queues/Tests.antt =====
-- The queues' page on concrete queues (QueuesPage.tsx).
use bv_orchestrator.Json.{to_text, Json, obj, end, prop, str}
use bv_orchestrator.Queues.{
  came, opened, to_client, to_clients, load_start, queues_came, stats_came, bulk_start, bulk_report,
  bulk_end,
}
use bv_orchestrator.Queues.Selection.{
  QueueEvent, row_toggled, all_toggled, load_started, queues_shown, stats_shown, bulk_reported,
  bulk_ended, run,
}
use bv_orchestrator.Common.{nat_eq, string_eq, String, ◌≡◌, refl, true, none, some, List, [], ◌∷◌}

page : Unit {0}
unfolding to_text run to_client to_clients load_start queues_came stats_came bulk_start bulk_report
    bulk_end
page = tt

abbrev queue : String → Json
queue id = obj (prop "external_id" (str id) (prop "name" (str id) end))

abbrev visit : List QueueEvent
visit = queues_shown (came (queue "q-1" ∷ queue "q-2" ∷ [])) ∷ stats_shown ∷ row_toggled 1 ∷ []

abbrev deletion : List QueueEvent
deletion =
    queues_shown (came (queue "q-1" ∷ queue "q-2" ∷ []))
    ∷ stats_shown
    ∷ row_toggled 1
    ∷ bulk_reported (λ id. some "busy") ("q-2" ∷ [])
    ∷ bulk_ended
    ∷ queues_shown (came (queue "q-1" ∷ []))
    ∷ all_toggled
    ∷ []

said_test :
    (bulk_start true (run opened visit) ≡ "q-2" ∷ [])
    × ((run opened deletion).selected ≡ "q-1" ∷ [])
    × ((run opened deletion).said ≡ "Partial delete" ∷ [])
unfolding page
said_test = (refl, refl, refl)

-- Between the queues and their statistics a queue that is gone can be selected.
gone_test :
    bulk_start true (
      run opened (
        queues_shown (came (queue "q-1" ∷ []))
        ∷ stats_shown
        ∷ row_toggled 0
        ∷ load_started
        ∷ queues_shown (came (queue "q-2" ∷ []))
        ∷ []))
    ≡ "q-1" ∷ []
unfolding page
gone_test = refl

digits_test : to_client (queue "17") ≡ none
unfolding page
digits_test = refl
