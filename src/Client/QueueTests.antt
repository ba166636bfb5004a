-- ===== src/Client/QueueTests.antt =====
-- The calls of api/queues.ts at a queue that a server gives.
use bv_orchestrator.Client.QueueIds.{CanBeNamed, fetch_queues-CanBeNamed}
use bv_orchestrator.Client.Queues.{fetch_queues}
use bv_orchestrator.Client.Decode.{each}
use bv_orchestrator.Client.{ApiResponse, answered, perform}
use bv_orchestrator.Queues.{queue_of, to_client}
use bv_orchestrator.Json.{Json, arr, cons, nil, obj, str, prop, end, to_text}
use bv_orchestrator.Common.{nat_eq, string_eq, All, String, ◌≡◌, refl, ◌⊎◌, inr, some, [], ◌∷◌}

abbrev queue_json : Json
queue_json = obj (prop "external_id" (str "3f-a2") (prop "name" (str "orders") end))

abbrev parse : String → String ⊎ Json
parse text = inr (arr (cons queue_json nil))

abbrev listing : ApiResponse
listing = record { status = 200; text = "" }

listed :
    perform (λ q. answered listing) (fetch_queues parse (some "t0") "")
    ≡ inr (queue_of queue_json ∷ [])
unfolding perform fetch_queues each to_client to_text
listed = refl

fetch_queues-CanBeNamed_example : All (CanBeNamed parse (some "t0")) (queue_of queue_json ∷ [])
fetch_queues-CanBeNamed_example =
    fetch_queues-CanBeNamed parse (λ q. answered listing) (some "t0") "" (queue_of queue_json ∷ [])
      listed
