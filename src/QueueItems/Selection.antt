-- ===== src/QueueItems/Selection.antt =====
-- The selection of the items (QueueItemsPage.tsx).
use bv_orchestrator.Common.Distinct.{IsDistinct, keep-IsDistinct, append-IsDistinct}
use bv_orchestrator.QueueItems.{
  QueueItem, Page, toggle_select, toggle_select_all, selectable_items, visible_items,
  filtered_items,
}
use bv_orchestrator.Common.{
  ◌==◌, nat_eq, string_eq, if◌then◌else◌, Bool-cases, length, keep, has, suc, String, ◌≡◌, refl, ap,
  ◌∙◌, ◌≢◌, inl, inr, true, false, not, List, [], ◌∷◌, ◌++◌, map, eq_iff, arith,
}

toggle_list :
    (id : String) (xs : List String)
    → IsDistinct xs
    → IsDistinct (if has id xs then keep (λ x. not (x == id)) xs else xs ++ (id ∷ []))
toggle_list id xs h = elim (Bool-cases (has id xs)) [
  | inl y ↦ rw (y) (keep-IsDistinct (λ x. not (x == id)) xs h)
  | inr n ↦ rw (n) (append-IsDistinct id xs n h)
]

gone : (id : String) (xs : List String) → has id (keep (λ x. not (x == id)) xs) ≡ false
gone id [] = refl
gone id (x ∷ xs) = let rest = gone id xs in ground arith

there : (id : String) (xs : List String) → has id (xs ++ (id ∷ [])) ≡ true
there id [] = ground (arith, eq_iff id id)
there id (x ∷ xs) = let rest = there id xs in ground arith

-- A click on an item's box turns its selection over, and leaves no id in the selection twice.
toggle_select_lem :
    (id : String) (v : Page)
    → IsDistinct v.selected
    → (has id (toggle_select id v).selected ≡ not (has id v.selected))
      × IsDistinct (toggle_select id v).selected
unfolding toggle_select
toggle_select_lem id v h = elim (Bool-cases (has id v.selected)) [
  | inl y ↦ (rw (y) (gone id v.selected), toggle_list id v.selected h)
  | inr n ↦ (rw (n) (there id v.selected), toggle_list id v.selected h)
]

length-map : (f : QueueItem → String) (xs : List QueueItem) → length (map f xs) ≡ length xs
length-map f [] = refl
length-map f (x ∷ xs) = ap suc (length-map f xs)

toggle_full :
    (v : Page)
    → length v.selected ≡ length (selectable_items v)
    → (toggle_select_all v).selected ≡ []
unfolding toggle_select_all
toggle_full v h =
    let same : (length v.selected == length (selectable_items v)) ≡ true = ground arith in
    rw (same) refl

toggle_some :
    (v : Page)
    → length v.selected ≢ length (selectable_items v)
    → (toggle_select_all v).selected ≡ map (λ (it : QueueItem). it.id) (selectable_items v)
unfolding toggle_select_all
toggle_some v h =
    let other : (length v.selected == length (selectable_items v)) ≡ false = ground arith in
    rw (other) refl

-- The box of all items selects, when another number of items is selected than there are to select,
-- exactly the visible items that are not deleted; a second click then selects none.
toggle_select_all_lem :
    (v : Page)
    → length v.selected ≢ length (selectable_items v)
    → ((toggle_select_all v).selected ≡ map (λ (it : QueueItem). it.id) (selectable_items v))
      × ((toggle_select_all (toggle_select_all v)).selected ≡ [])
unfolding toggle_select_all selectable_items visible_items filtered_items
toggle_select_all_lem v h =
    let first = toggle_some v h in
    let counted : length (toggle_select_all v).selected ≡ length (selectable_items v) =
      ap length first ∙ length-map (λ it. it.id) (selectable_items v) in
    (first, toggle_full (toggle_select_all v) counted)
