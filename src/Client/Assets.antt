-- ===== src/Client/Assets.antt =====
-- api/assets.ts: the calls of the assets.
use bv_orchestrator.Json.{Json}
use bv_orchestrator.Json.Case.{to_snake}
use bv_orchestrator.Queries.{text_param}
use bv_orchestrator.Client.{
  Call, with_headers, auth_headers, without_body, with_body, read_undetailed, read_void,
}
use bv_orchestrator.Common.{nat_eq, string_eq, ◌+++◌, show_nat, ℕ, String, ◌⊎◌, Option, []}

module _ (parse : String → String ⊎ Json) (token : Option String) where
  -- `fetchAssets`; a search that is missing is ""
  abbrev pub fetch_assets : String → Call (Option Json)
  fetch_assets search = record {
    request =
        with_headers (without_body "GET" "/api/assets/" (text_param "search" search []))
          (auth_headers token);
    receive = read_undetailed parse;
  }

  abbrev pub create_asset : Json → Call (Option Json)
  create_asset payload = record {
    request =
        with_headers (with_body "POST" "/api/assets/" (to_snake payload)) (auth_headers token);
    receive = read_undetailed parse;
  }

  abbrev pub update_asset : ℕ → Json → Call (Option Json)
  update_asset id payload = record {
    request =
        with_headers (with_body "PUT" ("/api/assets/" +++ show_nat id) (to_snake payload))
          (auth_headers token);
    receive = read_undetailed parse;
  }

  abbrev pub delete_asset : ℕ → Call (Option Json)
  delete_asset id = record {
    request =
        with_headers (without_body "DELETE" ("/api/assets/" +++ show_nat id) [])
          (auth_headers token);
    receive = read_void (λ t. t);
  }
