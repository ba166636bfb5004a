-- ===== src/Client/Triggers.antt =====
-- api/triggers.ts: the calls of the triggers; Trigger.Modal has their bodies.
use bv_orchestrator.Trigger.Modal.{Payload, create_body, update_body}
use bv_orchestrator.Json.{Json, obj}
use bv_orchestrator.Client.{
  Call, with_headers, auth_headers, without_body, with_body, read_error, read_detailed, read_void,
}
use bv_orchestrator.Common.{nat_eq, string_eq, ◌+++◌, String, ◌⊎◌, Option, []}

module _ (parse : String → String ⊎ Json) (token : Option String) where
  abbrev pub fetch_triggers : Call (Option Json)
  fetch_triggers = record {
    request = with_headers (without_body "GET" "/api/triggers/" []) (auth_headers token);
    receive = read_detailed parse;
  }

  abbrev pub enable_trigger : String → Call (Option Json)
  enable_trigger id = record {
    request =
        with_headers (without_body "POST" ("/api/triggers/" +++ id +++ "/enable") [])
          (auth_headers token);
    receive = read_detailed parse;
  }

  abbrev pub disable_trigger : String → Call (Option Json)
  disable_trigger id = record {
    request =
        with_headers (without_body "POST" ("/api/triggers/" +++ id +++ "/disable") [])
          (auth_headers token);
    receive = read_detailed parse;
  }

  abbrev pub update_trigger : String → Payload → Call (Option Json)
  update_trigger id payload = record {
    request =
        with_headers (with_body "PUT" ("/api/triggers/" +++ id) (obj (update_body payload)))
          (auth_headers token);
    receive = read_detailed parse;
  }

  abbrev pub delete_trigger : String → Call (Option Json)
  delete_trigger id = record {
    request =
        with_headers (without_body "DELETE" ("/api/triggers/" +++ id) []) (auth_headers token);
    receive = read_void (read_error parse);
  }

  abbrev pub create_trigger : Payload → Call (Option Json)
  create_trigger payload = record {
    request =
        with_headers (with_body "POST" "/api/triggers/" (obj (create_body payload)))
          (auth_headers token);
    receive = read_detailed parse;
  }
