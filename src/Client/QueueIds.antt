-- ===== src/Client/QueueIds.antt =====
-- The queues that fetchQueues gives can be named in the other calls of api/queues.ts.
use bv_orchestrator.Queues.{Queue, is_bad_id, queue_of, to_client}
use bv_orchestrator.Client.Decode.{mapped, each}
use bv_orchestrator.Client.Queues.{
  client_of, read_queue, queue_changes, fetch_queues, update_queue, fetch_queue_stats, delete_queue,
}
use bv_orchestrator.Json.{Json, null, arr, bool, num, str, obj, elems}
use bv_orchestrator.Client.{
  ApiRequest, ApiReply, unreachable, answered, perform, received, open_headers, with_json,
  without_body, with_body, is_success,
}
use bv_orchestrator.Queries.{text_param}
use std.Path.{subst}
use bv_orchestrator.Common.{
  nat_eq, string_eq, if◌then◌else◌, Bool-cases, All, ◌+++◌, String, ◌≡◌, refl, sym, ap, ◌∙◌, ◌⊎◌,
  inl, inr, false, Option, none, some, List, [], ◌∷◌, arith,
}

result-cases :
    {A : Type 0} (s : String ⊎ A) → ((m : String) × (s ≡ inl m)) ⊎ ((x : A) × (s ≡ inr x))
result-cases (inl m) = inl (m, refl)
result-cases (inr x) = inr (x, refl)

module _ {A : Type 0} (f : Json → String ⊎ A) (P : A → Type 0)
    (each-good : (v : Json) (x : A) → f v ≡ inr x → P x) where
  each-All : (vs : List Json) (xs : List A) → each f vs ≡ inr xs → All P xs
  unfolding each
  each-All [] xs e = let eq : [] ≡ xs = cc in subst (All P) eq tt
  each-All (v ∷ vs) xs e = elim (result-cases (f v)) [
    | inl (m, bad) ↦ absurd (ground (arith, bad))
    | inr (x, good) ↦ elim (result-cases (each f vs)) [
      | inl (m, bad) ↦ absurd (ground (arith, good, bad))
      | inr (ys, rest) ↦
          let eq : x ∷ ys ≡ xs = ground (arith, good, rest) in
          subst (All P) eq (each-good v x good, each-All vs ys rest)
    ]
  ]

  mapped-All : (v : Json) (xs : List A) → mapped f v ≡ inr xs → All P xs
  mapped-All (arr vs) xs e = each-All (elems vs) xs e
  mapped-All null xs e = absurd cc
  mapped-All (bool b) xs e = absurd cc
  mapped-All (num n) xs e = absurd cc
  mapped-All (obj ps) xs e = absurd cc
  mapped-All (str s) xs e = absurd cc

guarded-good :
    (c q : Queue)
    → client_of (if is_bad_id c.external_id then none else some c) ≡ inr q
    → is_bad_id q.external_id ≡ false
guarded-good c q e = elim (Bool-cases (is_bad_id c.external_id)) [
  | inl bad ↦ absurd (ground (arith, bad))
  | inr good ↦
      (let eq : c ≡ q = ground (arith, good) in
        sym (ap (λ (d : Queue). is_bad_id d.external_id) eq) ∙ good)
]

read_queue-good : (v : Json) (q : Queue) → read_queue v ≡ inr q → is_bad_id q.external_id ≡ false
unfolding to_client
read_queue-good v q e = guarded-good (queue_of v) q e

-- the other calls for a queue, with the requests that they send
abbrev pub CanBeNamed : (String → String ⊎ Json) → Option String → Queue → Type 0
CanBeNamed parse token q =
    ((delete_queue parse token q.external_id).request
      ≡ inr (without_body "DELETE" ("/api/queues/" +++ q.external_id) [] (open_headers token)))
    × ((fetch_queue_stats parse token q.external_id).request
        ≡ inr (
            without_body "GET" ("/api/queues/" +++ q.external_id +++ "/stats") []
              (open_headers token)))
    × ((payload : Json)
        → (update_queue parse token q.external_id payload).request
          ≡ inr (
              with_body "PUT" ("/api/queues/" +++ q.external_id) (queue_changes payload)
                (with_json (open_headers token))))

named :
    (parse : String → String ⊎ Json) (token : Option String) (q : Queue)
    → is_bad_id q.external_id ≡ false
    → CanBeNamed parse token q
unfolding delete_queue fetch_queue_stats update_queue
named parse token q h = rw (h) (refl, refl, λ payload. refl)

received-All :
    (parse : String → String ⊎ Json) (token : Option String) (search : String) (reply : ApiReply)
    (qs : List Queue)
    → received (fetch_queues parse token search).receive reply ≡ inr qs
    → All (CanBeNamed parse token) qs
unfolding fetch_queues
received-All parse token search (unreachable m) qs e = absurd cc
received-All parse token search (answered r) qs e = elim (Bool-cases (is_success r)) [
  | inl fine ↦ elim (result-cases (parse r.text)) [
    | inl (m, bad) ↦ absurd (ground (arith, fine, bad))
    | inr (v, good) ↦
        mapped-All read_queue (CanBeNamed parse token)
          (λ w q k. named parse token q (read_queue-good w q k)) v qs (ground (arith, fine, good))
  ]
  | inr refused ↦ absurd (ground (arith, refused))
]

-- Whatever the server answers: where fetchQueues gives queues, the deletion, the statistics and the update of
-- each of them are sent, at the path of its external id; the guard of these calls refuses none of them.
pub fetch_queues-CanBeNamed :
    (parse : String → String ⊎ Json) (server : ApiRequest → ApiReply) (token : Option String)
    (search : String) (qs : List Queue)
    → perform server (fetch_queues parse token search) ≡ inr qs
    → All (CanBeNamed parse token) qs
unfolding perform fetch_queues
fetch_queues-CanBeNamed parse server token search qs e =
    received-All parse token search
      (server
        (without_body "GET" "/api/queues/" (text_param "search" search []) (open_headers token)))
      qs e
