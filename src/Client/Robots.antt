-- ===== src/Client/Robots.antt =====
-- api/robots.ts: the calls of the robots.
use bv_orchestrator.Json.{Json}
use bv_orchestrator.Json.Case.{to_snake}
use bv_orchestrator.Queries.{text_param}
use bv_orchestrator.Client.{
  Call, with_headers, auth_headers, without_body, with_body, read_undetailed, read_void,
}
use bv_orchestrator.Common.{nat_eq, string_eq, ◌+++◌, show_nat, ℕ, String, ◌⊎◌, Option, []}

module _ (parse : String → String ⊎ Json) (token : Option String) where
  -- `fetchRobots`; a parameter that is missing is ""
  abbrev pub fetch_robots : String → String → Call (Option Json)
  fetch_robots search status = record {
    request =
        with_headers
          (without_body "GET" "/api/robots/"
            (text_param "search" search (text_param "status" status [])))
          (auth_headers token);
    receive = read_undetailed parse;
  }

  abbrev pub create_robot : Json → Call (Option Json)
  create_robot payload = record {
    request =
        with_headers (with_body "POST" "/api/robots/" (to_snake payload)) (auth_headers token);
    receive = read_undetailed parse;
  }

  abbrev pub update_robot : ℕ → Json → Call (Option Json)
  update_robot id payload = record {
    request =
        with_headers (with_body "PUT" ("/api/robots/" +++ show_nat id) (to_snake payload))
          (auth_headers token);
    receive = read_undetailed parse;
  }

  abbrev pub delete_robot : ℕ → Call (Option Json)
  delete_robot id = record {
    request =
        with_headers (without_body "DELETE" ("/api/robots/" +++ show_nat id) [])
          (auth_headers token);
    receive = read_void (λ t. t);
  }
