-- ===== src/Client/Queues.antt =====
-- api/queues.ts: the calls of the queues; Queues has `toClient`.
use bv_orchestrator.Queues.{Queue, is_bad_id, to_client}
use bv_orchestrator.Client.Decode.{mapped, else_null}
use bv_orchestrator.Json.{Json, obj, prop, end, num, bool, get, coalesce}
use bv_orchestrator.Queries.{text_param}
use bv_orchestrator.Common.Number.{int}
use bv_orchestrator.Common.Int.{pos}
use bv_orchestrator.Client.{
  ApiRequest, Call, open_headers, with_json, without_body, with_body, given_prop, read_with,
  read_undetailed, read_void,
}
use bv_orchestrator.Common.{
  nat_eq, string_eq, if◌then◌else◌, ◌+++◌, String, ◌⊎◌, inl, inr, false, Option, none, some, List,
  [],
}

-- the error of the guards
abbrev pub bad_id : String
bad_id = "Queue external_id missing or invalid (must be GUID)"

abbrev pub client_of : Option Queue → String ⊎ Queue
client_of none = inl bad_id
client_of (some q) = inr q

-- `toClient`, with its error
abbrev pub read_queue : Json → String ⊎ Queue
read_queue v = client_of (to_client v)

-- the body of `createQueue`, whose payload has a name
abbrev pub new_queue : Json → Json
new_queue payload = obj (
    given_prop "name" (get "name" payload) (
      prop "description" (else_null (get "description" payload)) (
        given_prop "max_retries" (coalesce (get "maxRetries" payload) (some (num (int (pos 0))))) (
          given_prop "enforce_unique_reference"
            (coalesce (get "enforceUniqueReference" payload) (some (bool false))) end))))

-- the body of `updateQueue`
abbrev pub queue_changes : Json → Json
queue_changes payload = obj (
    given_prop "description" (get "description" payload)
      (given_prop "max_retries" (get "maxRetries" payload) end))

-- the guard of the calls for one queue
abbrev pub guarded : String → ApiRequest → String ⊎ ApiRequest
guarded external_id q = if is_bad_id external_id then inl bad_id else inr q

module _ (parse : String → String ⊎ Json) (token : Option String) where
  -- `fetchQueues`; a search that is missing is ""
  unfoldable pub fetch_queues : String → Call (List Queue)
  unfolding to_client
  fetch_queues search = record {
    request =
        inr
          (without_body "GET" "/api/queues/" (text_param "search" search []) (open_headers token));
    receive = read_with parse (λ t. t) (mapped read_queue);
  }

  unfoldable pub create_queue : Json → Call Queue
  unfolding to_client
  create_queue payload = record {
    request =
        inr (with_body "POST" "/api/queues/" (new_queue payload) (with_json (open_headers token)));
    receive = read_with parse (λ t. t) read_queue;
  }

  unfoldable pub update_queue : String → Json → Call Queue
  unfolding to_client
  update_queue external_id payload = record {
    request = guarded external_id (
        with_body "PUT" ("/api/queues/" +++ external_id) (queue_changes payload)
          (with_json (open_headers token)));
    receive = read_with parse (λ t. t) read_queue;
  }

  unfoldable pub fetch_queue_stats : String → Call (Option Json)
  fetch_queue_stats external_id = record {
    request =
        guarded external_id (
          without_body "GET" ("/api/queues/" +++ external_id +++ "/stats") [] (open_headers token));
    receive = read_undetailed parse;
  }

  unfoldable pub delete_queue : String → Call (Option Json)
  delete_queue external_id = record {
    request =
        guarded external_id
          (without_body "DELETE" ("/api/queues/" +++ external_id) [] (open_headers token));
    receive = read_void (λ t. t);
  }
