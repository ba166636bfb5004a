-- ===== src/Bulk/Tests.antt =====
-- The selection of ProcessesPage.tsx at concrete clicks.
use bv_orchestrator.Bulk.Refines.{Click, row, all, clicks, set_clicks, clicks_lem}
use bv_orchestrator.Bulk.{toggle_id, toggle_all}
use bv_orchestrator.Common.{
  ◌==◌, nat_eq, string_eq, Bool-cases, has, ℕ, ◌≡◌, refl, inl, inr, List, [], ◌∷◌, arith,
}

abbrev shown_ids : List ℕ
shown_ids = 4 ∷ 7 ∷ 9 ∷ []

abbrev some_clicks : List (Click ℕ)
some_clicks = row 7 ∷ row 9 ∷ row 7 ∷ all ∷ row 4 ∷ []

left_selected : clicks shown_ids some_clicks (4 ∷ []) ≡ 7 ∷ 9 ∷ []
unfolding clicks toggle_id toggle_all
left_selected = refl

clicks_lem_example :
    has 7 (clicks shown_ids some_clicks (4 ∷ []))
    ≡ set_clicks shown_ids some_clicks (λ z. has z (4 ∷ [])) 7
clicks_lem_example =
    clicks_lem shown_ids some_clicks (4 ∷ []) (refl, (refl, (refl, tt)))
      (refl, (refl, (refl, (tt, (refl, tt)))))
      (
        (refl, tt),
        λ y h. elim (Bool-cases (4 == y)) [
          | inl same ↦ ground (arith, same)
          | inr other ↦ absurd (ground arith)
        ],
      )
      7
