-- ===== src/Client/Items.antt =====
-- api/queueItems.ts: the calls of the items of a queue. The parameter `parse` is JSON.parse.
use bv_orchestrator.Client.Decode.{of_object, mapped, else_null}
use bv_orchestrator.Json.{Json, null, str, num, obj, prop, end, get, coalesce, to_text, truthy}
use bv_orchestrator.Queries.{text_param}
use bv_orchestrator.Common.Number.{int}
use bv_orchestrator.Common.Int.{pos}
use bv_orchestrator.Client.{
  Call, open_headers, with_json, without_body, with_body, given_prop, read_with, is_success, decode,
}
use bv_orchestrator.Common.{
  ◌==◌, nat_eq, string_eq, if◌then◌else◌, ◌+++◌, String, ◌⊎◌, inl, inr, not, ◌&&◌, Option, none,
  some, List, [], ◌∷◌,
}

-- an item as the pages have it; a value that may be undefined is an option
pub record ItemView : Type 0 where
  pub id : Option Json
  pub queue_id : Option Json
  pub reference : Json
  pub status : Option Json
  pub priority : Option Json
  pub payload : Json
  pub result : Json
  pub error_message : Json
  pub retries : Option Json
  pub locked_by_robot_id : Json
  pub locked_at : Json
  pub created_at : Option Json
  pub updated_at : Option Json

-- the body of `updateQueueItem`
abbrev pub item_changes : Json → Json
item_changes payload = obj (
    given_prop "status" (get "status" payload) (
      given_prop "result" (get "result" payload)
        (given_prop "error_message" (get "errorMessage" payload) end)))

-- the body of `createQueueItem`
abbrev pub new_item_body : Json → Json
new_item_body payload = obj (
    given_prop "queue_external_id" (get "queueId" payload) (
      prop "reference" (else_null (get "reference" payload)) (
        given_prop "priority" (coalesce (get "priority" payload) (some (num (int (pos 0)))))
          (prop "payload" (else_null (get "payload" payload)) end))))

-- `err.message || 'Duplicate reference'`, as the message of an Error
abbrev duplicate_text : Option Json → String
duplicate_text none = "Duplicate reference"
duplicate_text (some v) = if truthy v then to_text v else "Duplicate reference"

abbrev parsed_or_null : String ⊎ Json → Json
parsed_or_null (inl e) = null
parsed_or_null (inr v) = v

module _ (parse : String → String ⊎ Json) where
  -- `jsonOrNull`
  abbrev pub json_or_null : Option Json → Json
  json_or_null none = null
  json_or_null (some (str s)) = parsed_or_null (parse s)
  json_or_null (some v) = v

  -- `toClient`
  unfoldable pub item_view : Json → ItemView
  item_view q = record {
    id = get "id" q;
    queue_id = get "queue_id" q;
    reference = else_null (get "reference" q);
    status = get "status" q;
    priority = coalesce (get "priority" q) (some (num (int (pos 0))));
    payload = json_or_null (get "payload" q);
    result = json_or_null (get "result" q);
    error_message = else_null (get "error_message" q);
    retries = coalesce (get "retries" q) (some (num (int (pos 0))));
    locked_by_robot_id = else_null (get "locked_by_robot_id" q);
    locked_at = else_null (get "locked_at" q);
    created_at = get "created_at" q;
    updated_at = get "updated_at" q;
  }

  abbrev pub read_item : Json → String ⊎ ItemView
  read_item v = of_object (λ q. inr (item_view q)) v

  abbrev duplicate : Json → String ⊎ ItemView
  duplicate v = of_object (λ e. inl (duplicate_text (get "message" e))) v

  module _ (token : Option String) where
    -- `fetchQueueItems`; a status that is missing is ""
    unfoldable pub fetch_queue_items : String → String → Call (List ItemView)
    unfolding item_view
    fetch_queue_items queue_id status = record {
      request = inr (
          without_body "GET" "/api/queue-items/"
            (("queue_external_id", queue_id) ∷ text_param "status" status []) (open_headers token));
      receive = read_with parse (λ t. t) (mapped read_item);
    }

    unfoldable pub fetch_queue_item : String → Call ItemView
    unfolding item_view
    fetch_queue_item id = record {
      request = inr (without_body "GET" ("/api/queue-items/" +++ id) [] (open_headers token));
      receive = read_with parse (λ t. t) read_item;
    }

    unfoldable pub create_queue_item : Json → Call ItemView
    unfolding item_view to_text
    create_queue_item payload = record {
      request = inr (
          with_body "POST" "/api/queue-items/" (new_item_body payload)
            (with_json (open_headers token)));
      receive = λ r.
          if not (is_success r) && r.status == 409
          then decode duplicate (parse r.text)
          else read_with parse (λ t. t) read_item r;
    }

    unfoldable pub update_queue_item : String → Json → Call ItemView
    unfolding item_view
    update_queue_item id payload = record {
      request = inr (
          with_body "PUT" ("/api/queue-items/" +++ id) (item_changes payload)
            (with_json (open_headers token)));
      receive = read_with parse (λ t. t) read_item;
    }
