-- ===== src/Client/Processes.antt =====
-- api/processes.ts: the calls of the processes.
use bv_orchestrator.Json.{Json}
use bv_orchestrator.Json.Case.{to_snake}
use bv_orchestrator.Queries.{text_param}
use bv_orchestrator.Client.{
  Call, with_headers, auth_headers, without_body, with_body, read_error, read_detailed, read_void,
}
use bv_orchestrator.Common.{nat_eq, string_eq, ◌+++◌, show_nat, ℕ, String, ◌⊎◌, Option, []}

module _ (parse : String → String ⊎ Json) (token : Option String) where
  -- `fetchProcesses`; a search that is missing is ""
  abbrev pub fetch_processes : String → Call (Option Json)
  fetch_processes search = record {
    request =
        with_headers (without_body "GET" "/api/processes/" (text_param "search" search []))
          (auth_headers token);
    receive = read_detailed parse;
  }

  abbrev pub fetch_process : ℕ → Call (Option Json)
  fetch_process id = record {
    request =
        with_headers (without_body "GET" ("/api/processes/" +++ show_nat id) [])
          (auth_headers token);
    receive = read_detailed parse;
  }

  abbrev pub create_process : Json → Call (Option Json)
  create_process payload = record {
    request =
        with_headers (with_body "POST" "/api/processes/" (to_snake payload)) (auth_headers token);
    receive = read_detailed parse;
  }

  abbrev pub update_process : ℕ → Json → Call (Option Json)
  update_process id payload = record {
    request =
        with_headers (with_body "PUT" ("/api/processes/" +++ show_nat id) (to_snake payload))
          (auth_headers token);
    receive = read_detailed parse;
  }

  abbrev pub upgrade_process_to_latest : ℕ → Call (Option Json)
  upgrade_process_to_latest id = record {
    request =
        with_headers (without_body "POST" ("/api/processes/" +++ show_nat id +++ "/upgrade") [])
          (auth_headers token);
    receive = read_detailed parse;
  }

  abbrev pub delete_process : ℕ → Call (Option Json)
  delete_process id = record {
    request =
        with_headers (without_body "DELETE" ("/api/processes/" +++ show_nat id) [])
          (auth_headers token);
    receive = read_void (read_error parse);
  }
