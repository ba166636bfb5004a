-- ===== src/Client/Machines.antt =====
-- api/machines.ts: the calls of the machines.
use bv_orchestrator.Json.{Json}
use bv_orchestrator.Json.Case.{to_snake}
use bv_orchestrator.Client.{
  Call, with_headers, auth_headers, without_body, with_body, read_undetailed, read_void,
}
use bv_orchestrator.Common.{nat_eq, string_eq, ◌+++◌, show_nat, ℕ, String, ◌⊎◌, Option, []}

module _ (parse : String → String ⊎ Json) (token : Option String) where
  abbrev pub fetch_machines : Call (Option Json)
  fetch_machines = record {
    request = with_headers (without_body "GET" "/api/machines" []) (auth_headers token);
    receive = read_undetailed parse;
  }

  abbrev pub get_machine : ℕ → Call (Option Json)
  get_machine id = record {
    request =
        with_headers (without_body "GET" ("/api/machines/" +++ show_nat id) [])
          (auth_headers token);
    receive = read_undetailed parse;
  }

  abbrev pub create_machine : Json → Call (Option Json)
  create_machine payload = record {
    request =
        with_headers (with_body "POST" "/api/machines" (to_snake payload)) (auth_headers token);
    receive = read_undetailed parse;
  }

  abbrev pub delete_machine : ℕ → Call (Option Json)
  delete_machine id = record {
    request =
        with_headers (without_body "DELETE" ("/api/machines/" +++ show_nat id) [])
          (auth_headers token);
    receive = read_void (λ t. t);
  }

  abbrev pub regenerate_machine_key : ℕ → Call (Option Json)
  regenerate_machine_key id = record {
    request =
        with_headers
          (without_body "POST" ("/api/machines/" +++ show_nat id +++ "/regenerate-key") [])
          (auth_headers token);
    receive = read_undetailed parse;
  }
