-- ===== src/Client/Outcomes.antt =====
-- What the calls of Client.Requests come to with a server.
use bv_orchestrator.Client.Operations.{Operation, call_of}
use bv_orchestrator.Client.Requests.{SendsProper, call-SendsProper}
use bv_orchestrator.Client.Answers.{is_detailed, receive_lem, request_out}
use bv_orchestrator.Client.{
  ApiRequest, ApiResponse, ApiReply, answered, perform, sent_through, received, is_success,
  read_error,
}
use bv_orchestrator.Json.{Json, get, str}
use bv_orchestrator.Common.{
  nat_eq, string_eq, if◌then◌else◌, or_default, is_empty, String, ◌≡◌, refl, ap, ◌∙◌, ◌⊎◌, inl, inr,
  true, false, Option, some,
}

-- Without a token, or with an empty one, each of these calls fails and sends nothing: its error is the same with any
-- server.
pub perform-signed_out :
    (parse : String → String ⊎ Json) (server : ApiRequest → ApiReply) (token : Option String)
    (op : Operation)
    → is_empty (or_default token "") ≡ true
    → perform server (call_of parse token op) ≡ inl "Not authenticated"
unfolding perform
perform-signed_out parse server token op h =
    ap (λ q. sent_through server (call_of parse token op).receive q) (request_out parse token op h)

sent_through-answered :
    {A : Type 0} (server : ApiRequest → ApiReply) (receive : ApiResponse → String ⊎ A) (t : String)
    (r : ApiResponse) (op : Operation) (q : String ⊎ ApiRequest)
    → ((q : ApiRequest) → server q ≡ answered r)
    → SendsProper op t q
    → sent_through server receive q ≡ receive r
sent_through-answered server receive t r op (inl e) h p = absurd p
sent_through-answered server receive t r op (inr q) h p = ap (received receive) (h q)

-- with a token and an answer, the value is what is made of the answer
perform-answered :
    (parse : String → String ⊎ Json) (server : ApiRequest → ApiReply) (t : String) (op : Operation)
    (r : ApiResponse)
    → is_empty t ≡ false
    → ((q : ApiRequest) → server q ≡ answered r)
    → perform server (call_of parse (some t) op) ≡ (call_of parse (some t) op).receive r
unfolding perform
perform-answered parse server t op r h k =
    sent_through-answered server (call_of parse (some t) op).receive t r op
      (call_of parse (some t) op).request k (call-SendsProper parse t op h)

-- With a token that is not empty, a server refuses a call, with a text that is an object with a text as its
-- `detail`: the calls of packages.ts (but the download and the signature of an entrypoint), processes.ts, jobs.ts
-- and triggers.ts fail with the detail, and those of assets.ts, robots.ts and machines.ts with the whole text.
pub perform-refused :
    (parse : String → String ⊎ Json) (server : ApiRequest → ApiReply) (t : String) (op : Operation)
    (r : ApiResponse) (v : Json) (d : String)
    → is_empty t ≡ false
    → ((q : ApiRequest) → server q ≡ answered r)
    → is_success r ≡ false
    → parse r.text ≡ inr v
    → get "detail" v ≡ some (str d)
    → perform server (call_of parse (some t) op) ≡ inl (if is_detailed op then d else r.text)
unfolding read_error
perform-refused parse server t op r v d h k refused p e =
    perform-answered parse server t op r h k
    ∙ receive_lem parse (some t) op r
    ∙ rw (refused, p, e) refl
