-- ===== src/Client/Tests.antt =====
-- Calls of the clients in api/ at concrete arguments.
use bv_orchestrator.Client.InSession.{FitsSession, call-FitsSession}
use bv_orchestrator.Session.{run, initial, logged_out, session_set}
use bv_orchestrator.Client.Operations.{remove_asset, send_package, call_of}
use bv_orchestrator.Client.Requests.{SendsProper, call-SendsProper}
use bv_orchestrator.Client.Outcomes.{perform-refused}
use bv_orchestrator.Client.{ApiResponse, answered, perform}
use bv_orchestrator.Json.{Json, obj, str, prop, end}
use bv_orchestrator.Common.{
  ◌==◌, nat_eq, string_eq, if◌then◌else◌, String, ◌≡◌, refl, ◌⊎◌, inl, inr, none, some, [], ◌∷◌,
}

-- the JSON of two texts
abbrev parse : String → String ⊎ Json
parse text =
    if text == "refusal"
    then inr (obj (prop "detail" (str "Asset is in use") end))
    else if text == "process"
    then inr (obj (prop "package_id" (str "7") end))
    else inl "no JSON"

abbrev refusing : ApiResponse
refusing = record { status = 409; text = "refusal" }

abbrev giving : ApiResponse
giving = record { status = 200; text = "process" }

call-SendsProper_example :
    SendsProper
      (send_package "a.zip")
      "t0"
      (call_of parse (some "t0") (send_package "a.zip")).request
call-SendsProper_example = call-SendsProper parse "t0" (send_package "a.zip") refl

perform-refused_example :
    perform (λ q. answered refusing) (call_of parse (some "t0") (remove_asset 3)) ≡ inl "refusal"
perform-refused_example =
    perform-refused parse (λ q. answered refusing) "t0" (remove_asset 3) refusing
      (obj (prop "detail" (str "Asset is in use") end)) "Asset is in use" refl (λ q. refl) refl refl
      refl

call-FitsSession_example :
    FitsSession parse
      (λ q. answered giving)
      (remove_asset 3)
      (run (initial [] "") (logged_out ∷ session_set "t0" none ∷ [])).status
      (run (initial [] "") (logged_out ∷ session_set "t0" none ∷ []))
call-FitsSession_example =
    call-FitsSession parse (λ q. answered giving) (remove_asset 3) [] ""
      (logged_out ∷ session_set "t0" none ∷ [])
