-- ===== src/Queues.antt =====
-- QueuesPage.tsx with api/queues.ts: the queues of the server, their list with its selection, the form of a
-- queue, and the deletions.
pub mod Selection
pub mod Tests
use bv_orchestrator.Json.{Json, get, coalesce, truthy, to_text, num, null, bool}
use bv_orchestrator.Common.Number.{Number, int}
use bv_orchestrator.Common.Int.{pos}
use bv_orchestrator.Bulk.{toggle_id, toggle_all, delete_each, report}
use bv_orchestrator.Common.{
  ◌==◌, nat_eq, string_eq, if◌then◌else◌, is_some, length, ◌+++◌, is_empty, or_text, trim, is_digit,
  code, ℕ, ◌+◌, ◌-◌, String, ◌⊎◌, inl, inr, Bool, true, false, not, ◌&&◌, ◌||◌, Option, none, some,
  List, [], ◌∷◌, map,
}

pub record Queue : Type 0 where
  pub external_id : String
  pub name : Option Json
  pub description : Option Json
  pub max_retries : Option Json
  pub enforce_unique_reference : Option Json

-- `/^\d+$/.test(s)`
abbrev pub all_digits : String → Bool
all_digits String.[] = true
all_digits (String.◌∷◌ c s) = is_digit (code c) && all_digits s

-- `!externalId || /^\d+$/.test(externalId)`
abbrev pub is_bad_id : String → Bool
is_bad_id s = is_empty s || all_digits s

abbrev text_of : Option Json → String
text_of none = ""
text_of (some v) = if truthy v then to_text v else ""

-- the queue that `toClient` makes, by its id
abbrev pub queue_of : Json → Queue
queue_of q = record {
  external_id = text_of (coalesce (get "external_id" q) (get "id" q));
  name = get "name" q;
  description = coalesce (get "description" q) (some null);
  max_retries = coalesce (get "max_retries" q) (some (num (int (pos 0))));
  enforce_unique_reference = coalesce (get "enforce_unique_reference" q) (some (bool false));
}

-- `toClient`: `none` is the error that it throws.
unfoldable pub to_client : Json → Option Queue
to_client q = if is_bad_id (queue_of q).external_id then none else some (queue_of q)

-- `data.map(toClient)`, which throws where one of them does
unfoldable pub to_clients : List Json → Option (List Queue)
unfolding to_client
to_clients [] = some []
to_clients (q ∷ qs) = both (to_client q) (to_clients qs)
  where
    both : Option Queue → Option (List Queue) → Option (List Queue)
    both none rest = none
    both (some c) none = none
    both (some c) (some cs) = some (c ∷ cs)

abbrev pub ids : List Queue → List String
ids qs = map (λ (q : Queue). q.external_id) qs

-- The state of the page; `waiting` are the loads that have shown their queues and wait for the statistics of
-- these, which are left out themselves, and `said` are the titles of its toasts and alerts, the newest first.
pub record QueuesPage : Type 0 where
  pub items : List Queue
  pub loading : Bool
  pub error : Option String
  pub selected : List String
  pub waiting : ℕ
  pub said : List String

-- the page when it is opened
abbrev pub opened : QueuesPage
opened = record { items = []; loading = true; error = none; selected = []; waiting = 0; said = [] }

abbrev pub say : String → QueuesPage → QueuesPage
say title v = record v { said = title ∷ v.said }

-- what a request for the queues comes to
pub data Loaded : Type 0 where
  came : List Json → Loaded
  failed : (message : String) → Loaded

-- `load` up to its first await
unfoldable pub load_start : QueuesPage → QueuesPage
load_start v = record v { loading = true; error = none }

abbrev show_clients : Option (List Queue) → QueuesPage → QueuesPage
show_clients none v = record v {
  error = some "Queue external_id missing or invalid (must be GUID)";
  loading = false;
}
show_clients (some qs) v = record v { items = qs; waiting = v.waiting + 1 }

-- `load` from there: where the queues have come it shows them, and waits for their statistics.
unfoldable pub queues_came : Loaded → QueuesPage → QueuesPage
unfolding to_clients
queues_came (came qs) v = show_clients (to_clients qs) v
queues_came (failed e) v = record v {
  error = some (or_text e "Failed to load queues");
  loading = false;
}

-- The end of `load`: the statistics of all queues have come, or failed, each for itself.
unfoldable pub stats_came : QueuesPage → QueuesPage
stats_came v = record v { selected = []; waiting = v.waiting - 1; loading = false }

unfoldable pub toggle_select : String → QueuesPage → QueuesPage
unfolding toggle_id
toggle_select id v = record v { selected = toggle_id id v.selected }

unfoldable pub toggle_select_all : QueuesPage → QueuesPage
unfolding toggle_all
toggle_select_all v = record v { selected = toggle_all (ids v.items) v.selected }

-- `handleDelete`: the ids that are sent, the page with the load that begins, and what is said after the load
unfoldable pub handle_delete :
    (String → Option String) → Bool → String → QueuesPage → List String × QueuesPage × Option String
unfolding load_start
handle_delete answer confirmed id v =
    if not confirmed
    then ([], v, none)
    else if is_some (answer id)
    then (id ∷ [], say "Delete failed" v, none)
    else (id ∷ [], load_start v, some "Queue deleted")

-- `handleBulkDelete`: the ids that it deletes, by the selection at the click
unfoldable pub bulk_start : Bool → QueuesPage → List String
bulk_start confirmed v = if length v.selected == 0 || not confirmed then [] else v.selected

-- Its report, once each of them has its answer, and its end, which for an alert waits until it is closed
unfoldable pub bulk_report : (String → Option String) → List String → QueuesPage → QueuesPage
unfolding delete_each report
bulk_report answer deleted v =
    let (count, errors) = delete_each (λ id. "queue " +++ id) answer deleted in
    say (report "queue" count errors).0 v

unfoldable pub bulk_end : QueuesPage → QueuesPage
unfolding load_start
bulk_end v = load_start (record v { selected = [] })

-- the form of a queue
pub record QueueForm : Type 0 where
  pub name : String
  pub description : String
  pub max_retries : Number
  pub enforce_unique_reference : Bool

-- What `handleSave` sends: a description that is empty is left out.
pub data QueueRequest : Type 0 where
  update_queue :
      (external_id : String) (description : Option String) (max_retries : Number) → QueueRequest
  create_queue :
      (name : String) (description : Option String) (max_retries : Number) (enforce : Bool)
      → QueueRequest

abbrev text_or_undefined : String → Option String
text_or_undefined s = if is_empty s then none else some s

-- `submit` of the form with `handleSave`: the alert's title, or the request
unfoldable pub submit_queue : Option Queue → QueueForm → String ⊎ QueueRequest
unfolding trim
submit_queue none form =
    if is_empty (trim form.name)
    then inl "Name is required"
    else inr (
        create_queue form.name (text_or_undefined form.description) form.max_retries
          form.enforce_unique_reference)
submit_queue (some q) form =
    if is_bad_id q.external_id
    then inl "Save failed"
    else inr (update_queue q.external_id (text_or_undefined form.description) form.max_retries)
