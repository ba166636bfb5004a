-- ===== src/Queries/Keys.antt =====
-- The keys of the query strings of api/logs.ts and api/audit.ts.
use bv_orchestrator.Common.Distinct.{IsDistinct}
use bv_orchestrator.Queries.{
  Params, text_param, number_param, given_param, LogQuery, log_params, AuditQuery, audit_params,
}
use bv_orchestrator.Common.Number.{Number, is_truthy}
use bv_orchestrator.Common.{
  nat_eq, string_eq, if_intro, has, is_empty, String, ◌≡◌, refl, ◌⊎◌, inl, inr, false, Option, none,
  some, List, [], ◌∷◌, map, arith,
}

abbrev pub keys : Params → List String
keys ps = map (λ (p : String × String). p.0) ps

-- The first list is the second with some elements left out.
abbrev IsPart : List String → List String → Type 0
IsPart xs [] = xs ≡ []
IsPart xs (y ∷ ys) = IsPart xs ys ⊎ ((zs : List String) × (xs ≡ y ∷ zs) × IsPart zs ys)

part_has : (k : String) (xs ys : List String) → IsPart xs ys → has k ys ≡ false → has k xs ≡ false
part_has k xs [] h n = rw (h) refl
part_has k xs (y ∷ ys) (inl h) n = part_has k xs ys h (ground arith)
part_has k xs (y ∷ ys) (inr (zs, e, h)) n =
    let rest = part_has k zs ys h (ground arith) in rw (e) (ground arith)

part-IsDistinct : (xs ys : List String) → IsPart xs ys → IsDistinct ys → IsDistinct xs
part-IsDistinct xs [] h d = rw (h) tt
part-IsDistinct xs (y ∷ ys) (inl h) (n, d) = part-IsDistinct xs ys h d
part-IsDistinct xs (y ∷ ys) (inr (zs, e, h)) (n, d) =
    rw (e) (part_has y zs ys h n, part-IsDistinct zs ys h d)

-- The keys of the parameters are some of these, in their order.
record IsKeyed (ps : Params) (ys : List String) : Type 0 where
  part : IsPart (keys ps) ys

text_part :
    (k v : String) (ps : Params) (ys : List String)
    → IsKeyed ps ys
    → IsKeyed (text_param k v ps) (k ∷ ys)
text_part k v ps ys h = record {
  part =
      if_intro (λ (qs : Params). IsPart (keys qs) (k ∷ ys)) (is_empty v) (inl h.part)
        (inr (keys ps, refl, h.part));
}

number_part :
    (k : String) (n : Option Number) (ps : Params) (ys : List String)
    → IsKeyed ps ys
    → IsKeyed (number_param k n ps) (k ∷ ys)
unfolding number_param
number_part k none ps ys h = record { part = inl h.part }
number_part k (some n) ps ys h = record {
  part =
      if_intro (λ (qs : Params). IsPart (keys qs) (k ∷ ys)) (is_truthy n)
        (inr (keys ps, refl, h.part)) (inl h.part);
}

given_part :
    (k : String) (n : Option Number) (ps : Params) (ys : List String)
    → IsKeyed ps ys
    → IsKeyed (given_param k n ps) (k ∷ ys)
unfolding given_param
given_part k none ps ys h = record { part = inl h.part }
given_part k (some n) ps ys h = record { part = inr (keys ps, refl, h.part) }

abbrev log_keys : List String
log_keys =
    "from" ∷ "to" ∷ "level" ∷ "process_id" ∷ "machine_id" ∷ "host_identity" ∷ "search" ∷ "limit"
    ∷ "offset" ∷ "order" ∷ []

log_keys-IsDistinct : IsDistinct log_keys
log_keys-IsDistinct =
    (refl, (refl, (refl, (refl, (refl, (refl, (refl, (refl, (refl, (refl, tt))))))))))

log_part : (q : LogQuery) → IsKeyed (log_params q) log_keys
unfolding log_params
log_part q = text_part "from" q.from_time _ _ (
    text_part "to" q.to_time _ _ (
      text_part "level" _ _ _ (
        number_part "process_id" q.process_id _ _ (
          number_part "machine_id" q.machine_id _ _ (
            text_part "host_identity" q.host_identity _ _ (
              text_part "search" q.search_text _ _ (
                number_part "limit" q.limit _ _ (
                  number_part "offset" q.offset _ _
                    (text_part "order" q.order [] [] (record { part = refl }))))))))))

-- No parameter of a query for logs is set twice, whatever filters are given.
log_params-IsDistinct : (q : LogQuery) → IsDistinct (keys (log_params q))
log_params-IsDistinct q =
    part-IsDistinct (keys (log_params q)) log_keys (log_part q).part log_keys-IsDistinct

abbrev audit_keys : List String
audit_keys =
    "from_time" ∷ "to_time" ∷ "action_type" ∷ "user" ∷ "search" ∷ "entity_type" ∷ "entity_id"
    ∷ "from" ∷ "to" ∷ "user_id" ∷ "username" ∷ "action" ∷ "q" ∷ "page" ∷ "page_size" ∷ []

audit_keys-IsDistinct : IsDistinct audit_keys
audit_keys-IsDistinct = (
  refl,
  (
    refl,
    (
      refl,
      (
        refl,
        (refl, (refl, (refl, (refl, (refl, (refl, (refl, (refl, (refl, (refl, (refl, tt))))))))))),
      ),
    ),
  ),
)

audit_part : (p : AuditQuery) → IsKeyed (audit_params p) audit_keys
unfolding audit_params
audit_part p = text_part "from_time" p.from_time _ _ (
    text_part "to_time" p.to_time _ _ (
      text_part "action_type" p.action_type _ _ (
        text_part "user" p.user _ _ (
          text_part "search" p.search_text _ _ (
            text_part "entity_type" p.entity_type _ _ (
              text_part "entity_id" p.entity_id _ _ (
                text_part "from" p.from _ _ (
                  text_part "to" p.to _ _ (
                    given_part "user_id" p.user_id _ _ (
                      text_part "username" p.username _ _ (
                        text_part "action" p.action _ _ (
                          text_part "q" p.q _ _ (
                            number_part "page" p.page _ _ (
                              number_part "page_size" p.page_size [] []
                                (record { part = refl })))))))))))))))

-- No parameter of a query for the audit trail is set twice, whatever filters are given.
audit_params-IsDistinct : (p : AuditQuery) → IsDistinct (keys (audit_params p))
audit_params-IsDistinct p =
    part-IsDistinct (keys (audit_params p)) audit_keys (audit_part p).part audit_keys-IsDistinct
