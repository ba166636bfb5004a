-- ===== src/Audit/Tests.antt =====
-- The audit page with a server of three pages (AuditPage.tsx).
use bv_orchestrator.Audit.{
  AuditItem, AuditPage, AuditLoad, AuditReply, came, load_of, opened, pages, apply, clear, next,
  prev, effect, answered, answer_oldest, answer_each,
}
use bv_orchestrator.Audit.Settled.{Echoes, apply_never_settles, next_shows}
use bv_orchestrator.Common.{nat_eq, string_eq, ℕ, ◌≡◌, refl, false, none, [], ◌∷◌, arith}

page : Unit {0}
unfolding effect apply clear next prev pages answered answer_oldest answer_each
page = tt

-- one row for each page, with its number
abbrev row : ℕ → AuditItem
row n = record {
  id = n;
  timestamp = "2025-01-01T00:00:00";
  actor_username = none;
  action = "created";
  action_type = none;
  entity_type = none;
  entity_display = none;
  entity_id = none;
  entity_name = none;
  message = none;
  summary = none;
}

abbrev serve : AuditLoad → AuditReply
serve l = record { items = row l.page ∷ []; total = 120; page = l.page; page_size = l.page_size }

serve-Echoes : Echoes serve
serve-Echoes l served = (refl, refl)

abbrev first : AuditPage
first = record opened { loading = false; total = 120; pending = [] }

abbrev third : AuditPage
third = record first { page = 3 }

flips_test :
    ((answer_each (λ l. came (serve l)) 1 (apply third)).page ≡ 3)
    × ((answer_each (λ l. came (serve l)) 2 (apply third)).page ≡ 1)
    × ((answer_each (λ l. came (serve l)) 3 (apply third)).page ≡ 3)
unfolding page
flips_test = (refl, refl, refl)

apply_never_settles_example :
    let w = answer_each (λ l. came (serve l)) 9 (apply third) in
    (w.pending ≡ record (load_of third) { page = 1 } ∷ load_of third ∷ []) × (w.page ≡ 3)
apply_never_settles_example =
    apply_never_settles serve serve-Echoes 9 third refl (ground arith) refl

next_shows_example :
    let w = answer_oldest (λ l. came (serve l)) (next first) in
    (w.pending ≡ []) × (w.page ≡ 2) × (w.items ≡ row 2 ∷ [])
unfolding page
next_shows_example = next_shows serve serve-Echoes first refl refl refl refl refl
