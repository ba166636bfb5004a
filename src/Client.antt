-- ===== src/Client.antt =====
-- The clients of the server in api/: what a call sends, and what it makes of the answer. The token is that of
-- localStorage, and the parameter `parse` is JSON.parse, with the message of its error. A call's value is
-- `none` where it is undefined.
pub mod Assets
pub mod Robots
pub mod Machines
pub mod Processes
pub mod Jobs
pub mod Packages
pub mod Operations
pub mod Requests
pub mod Answers
pub mod Outcomes
pub mod Tests
pub mod Triggers
pub mod Decode
pub mod Queues
pub mod Items
pub mod QueueIds
pub mod QueueTests
pub mod Views
pub mod Access
pub mod Me
pub mod InSession
use bv_orchestrator.Json.{Json, str, Props, prop, get}
use bv_orchestrator.Json.Case.{to_camel}
use bv_orchestrator.Queries.{Params}
use bv_orchestrator.Common.{
  ltb, leb, nat_eq, string_eq, if◌then◌else◌, or_default, ◌+++◌, is_empty, ℕ, String, ◌⊎◌, inl, inr,
  Bool, ◌&&◌, Option, none, some, [], ◌∷◌, ◌++◌,
}

pub data Body : Type 0 where
  no_body : Body
  json_body : Json → Body
  file_body : (name : String) → Body

-- a request of fetch; its query is kept as its parameters
pub record ApiRequest : Type 0 where
  pub method : String
  pub path : String
  pub query : Params
  pub headers : Params
  pub body : Body

pub record ApiResponse : Type 0 where
  pub status : ℕ
  pub text : String

pub data ApiReply : Type 0 where
  unreachable : (message : String) → ApiReply
  answered : ApiResponse → ApiReply

-- `res.ok`
abbrev pub is_success : ApiResponse → Bool
is_success r = leb 200 r.status && ltb r.status 300

-- A call, at its one await of fetch: the error thrown before it or the request, and what is made of the answer.
pub record Call (A : Type 0) : Type 0 where
  pub request : String ⊎ ApiRequest
  pub receive : ApiResponse → String ⊎ A

abbrev pub received : {A : Type 0} → (ApiResponse → String ⊎ A) → ApiReply → String ⊎ A
received receive (unreachable m) = inl m
received receive (answered r) = receive r

abbrev pub sent_through :
    {A : Type 0}
    → (ApiRequest → ApiReply)
    → (ApiResponse → String ⊎ A)
    → String ⊎ ApiRequest
    → String ⊎ A
sent_through server receive (inl e) = inl e
sent_through server receive (inr r) = received receive (server r)

-- The call with a server that answers the requests: its error or its value.
unfoldable pub perform : {A : Type 0} → (ApiRequest → ApiReply) → Call A → String ⊎ A
perform server c = sent_through server c.receive c.request

-- what a request is given when its headers are
abbrev pub with_headers : (Params → ApiRequest) → String ⊎ Params → String ⊎ ApiRequest
with_headers f (inl e) = inl e
with_headers f (inr h) = inr (f h)

-- `authHeaders` of utils.ts, assets.ts, machines.ts, processes.ts and robots.ts
unfoldable pub auth_headers : Option String → String ⊎ Params
auth_headers token =
    let t = or_default token "" in
    if is_empty t
    then inl "Not authenticated"
    else inr (("Authorization", "Bearer " +++ t) ∷ ("Content-Type", "application/json") ∷ [])

-- `authHeaders` of packages.ts
unfoldable pub bearer_headers : Option String → String ⊎ Params
bearer_headers token =
    let t = or_default token "" in
    if is_empty t then inl "Not authenticated" else inr (("Authorization", "Bearer " +++ t) ∷ [])

-- `authHeaders` of access.ts, queues.ts and queueItems.ts
unfoldable pub open_headers : Option String → Params
open_headers token = ("Authorization", "Bearer " +++ or_default token "") ∷ []

abbrev pub with_json : Params → Params
with_json h = h ++ (("Content-Type", "application/json") ∷ [])

abbrev with_json? : String ⊎ Params → String ⊎ Params
with_json? (inl e) = inl e
with_json? (inr h) = inr (with_json h)

-- the headers of a request of packages.ts with a body of JSON
abbrev pub bearer_json : Option String → String ⊎ Params
bearer_json token = with_json? (bearer_headers token)

abbrev pub without_body : String → String → Params → Params → ApiRequest
without_body method path query headers = record {
  method = method;
  path = path;
  query = query;
  headers = headers;
  body = no_body;
}

abbrev pub with_body : String → String → Json → Params → ApiRequest
with_body method path body headers = record {
  method = method;
  path = path;
  query = [];
  headers = headers;
  body = json_body body;
}

-- A property of a body that is sent: JSON.stringify leaves out what is undefined.
abbrev pub given_prop : String → Option Json → Props → Props
given_prop k none ps = ps
given_prop k (some v) ps = prop k v ps

abbrev text_detail : Option Json → String → String
text_detail (some (str d)) text = d
text_detail _ text = text

abbrev error_in : String ⊎ Json → String → String
error_in (inl e) text = text
error_in (inr v) text = text_detail (get "detail" v) text

-- `res.json()` and what is made of it
abbrev pub decode : {A : Type 0} → (Json → String ⊎ A) → String ⊎ Json → String ⊎ A
decode f (inl e) = inl e
decode f (inr v) = f v

-- `toCamel(await res.json())`
abbrev pub camel_value : Json → String ⊎ Option Json
camel_value v = inr (some (to_camel v))

-- an answer of which only the error is read
abbrev pub read_void : (String → String) → ApiResponse → String ⊎ Option Json
read_void describe r = if is_success r then inr none else inl (describe r.text)

module _ (parse : String → String ⊎ Json) where
  -- `readError`, of the text
  unfoldable pub read_error : String → String
  read_error text = error_in (parse text) text

  -- What is made of an answer: the error that `describe` makes of its text, or the value that `f` makes of its JSON.
  abbrev pub read_with :
      {A : Type 0} → (String → String) → (Json → String ⊎ A) → ApiResponse → String ⊎ A
  read_with describe f r = if is_success r then decode f (parse r.text) else inl (describe r.text)

  -- the same of a client that shows the text of an error, and of one that shows its detail
  unfoldable pub read_undetailed : ApiResponse → String ⊎ Option Json
  unfolding to_camel
  read_undetailed r = read_with (λ t. t) camel_value r

  unfoldable pub read_detailed : ApiResponse → String ⊎ Option Json
  unfolding to_camel
  read_detailed r = read_with read_error camel_value r
