-- ===== src/Bulk/Refines.antt =====
-- The selection of the lists refines a set of their rows: the test by which the box of all rows compares two
-- lengths is the test whether all rows are selected (ProcessesPage.tsx, QueuesPage.tsx, AssetsPage.tsx).
use std.Path.{fun_ext}
use bv_orchestrator.Common.Distinct.{IsDistinct, keep-IsDistinct, append-IsDistinct}
use bv_orchestrator.Common.Subset.{Within, same_id, flipped, has-without, has-added, length-every}
use bv_orchestrator.Bulk.{toggle_id, toggle_all}
use bv_orchestrator.Common.{
  Eq, ◌==◌, nat_eq, string_eq, if◌then◌else◌, Bool-cases, length, every, has, All, ◌≡◌, refl, sym,
  ap, ◌∙◌, inl, inr, Bool, true, false, not, List, [], ◌∷◌, arith,
}

-- a click on the box of a row, or on that of all rows
pub data Click (A : Type 0) : Type 0 where
  row : A → Click A
  all : Click A

module _ {A : Type 0} ⦃eq : Eq A⦄ where
  -- what a click does to the selection, and to the set of what is selected
  abbrev pub click : List A → Click A → List A → List A
  click ids (row x) selected = toggle_id x selected
  click ids all selected = toggle_all ids selected

  abbrev pub set_click : List A → Click A → (A → Bool) → A → Bool
  set_click ids (row x) chosen y = if y == x then not (chosen y) else chosen y
  set_click ids all chosen y = if every chosen ids then false else has y ids

  unfoldable pub clicks : List A → List (Click A) → List A → List A
  unfolding toggle_id toggle_all
  clicks ids [] selected = selected
  clicks ids (c ∷ cs) selected = clicks ids cs (click ids c selected)

  unfoldable pub set_clicks : List A → List (Click A) → (A → Bool) → A → Bool
  set_clicks ids [] chosen = chosen
  set_clicks ids (c ∷ cs) chosen = set_clicks ids cs (set_click ids c chosen)

  -- A row that can be clicked is one of the list.
  abbrev pub IsShown : List A → Click A → Type 0
  IsShown ids (row x) = has x ids ≡ true
  IsShown ids all = Unit

  toggle_id-has :
      (x y : A) (selected : List A)
      → has y (toggle_id x selected) ≡ (if y == x then not (has y selected) else has y selected)
  unfolding toggle_id
  toggle_id-has x y selected = elim (Bool-cases (has x selected)) [
    | inl there ↦ rw (there) (
        has-without x y selected ∙ elim (Bool-cases (y == x)) [
          | inl same ↦
              (let h : has y selected ≡ true =
                  ap (λ t. has t selected) (same_id y x same) ∙ there in
                rw (same) (rw (h) refl))
          | inr other ↦ rw (other) refl
        ])
    | inr new ↦ rw (new) (
        has-added x y selected ∙ elim (Bool-cases (y == x)) [
          | inl same ↦
              (let h : has y selected ≡ false = ap (λ t. has t selected) (same_id y x same) ∙ new in
                let back : (x == y) ≡ true = flipped x y ∙ same in
                rw (same) (rw (h) (rw (back) refl)))
          | inr other ↦
              (let back : (x == y) ≡ false = flipped x y ∙ other in
                rw (other) (rw (back) (ground arith)))
        ])
  ]

  -- what holds of a selection between two clicks
  abbrev pub IsSelection : List A → List A → Type 0
  IsSelection ids selected = IsDistinct selected × Within selected ids

  toggle_id-IsSelection :
      (ids : List A) (x : A) (selected : List A)
      → has x ids ≡ true
      → IsSelection ids selected
      → IsSelection ids (toggle_id x selected)
  unfolding toggle_id
  toggle_id-IsSelection ids x selected shown (d, w) = (
    elim (Bool-cases (has x selected)) [
      | inl there ↦ rw (there) (keep-IsDistinct (λ z. not (z == x)) selected d)
      | inr new ↦ rw (new) (append-IsDistinct x selected new d)
    ],
    λ y h. elim (Bool-cases (y == x)) [
      | inl same ↦ ap (λ t. has t ids) (same_id y x same) ∙ shown
      | inr other ↦ w y (sym (toggle_id-has x y selected ∙ rw (other) refl) ∙ h)
    ],
  )

  toggle_all-IsSelection :
      (ids selected : List A)
      → IsDistinct ids
      → IsSelection ids selected
      → IsSelection ids (toggle_all ids selected)
  unfolding toggle_all
  toggle_all-IsSelection ids selected d s = elim (Bool-cases (length selected == length ids)) [
    | inl same ↦ rw (same) (tt, λ y h. absurd cc)
    | inr other ↦ rw (other) (d, λ y h. h)
  ]

  toggle_all-has :
      (ids selected : List A)
      → IsDistinct ids
      → IsSelection ids selected
      → (y : A)
      → has y (toggle_all ids selected)
        ≡ (if every (λ z. has z selected) ids then false else has y ids)
  unfolding toggle_all
  toggle_all-has ids selected d (k, w) y =
      rw (length-every selected ids k d w) (elim (Bool-cases (every (λ z. has z selected) ids)) [
        | inl full ↦ rw (full) refl
        | inr part ↦ rw (part) refl
      ])

  click-IsSelection :
      (ids : List A) (c : Click A) (selected : List A)
      → IsDistinct ids
      → IsShown ids c
      → IsSelection ids selected
      → IsSelection ids (click ids c selected)
  click-IsSelection ids (row x) selected d shown s = toggle_id-IsSelection ids x selected shown s
  click-IsSelection ids all selected d shown s = toggle_all-IsSelection ids selected d s

  click-has :
      (ids : List A) (c : Click A) (selected : List A)
      → IsDistinct ids
      → IsSelection ids selected
      → (y : A) → has y (click ids c selected) ≡ set_click ids c (λ z. has z selected) y
  click-has ids (row x) selected d s y = toggle_id-has x y selected
  click-has ids all selected d s y = toggle_all-has ids selected d s y

  -- After any clicks on the boxes of a list of distinct rows, from a selection without repetition of some of
  -- them, exactly the rows are selected that are in the set that the same clicks make of the set of the selected:
  -- a row's box turns the row over, and that of all rows empties the set when all are in it and fills it otherwise.
  pub clicks_lem :
      (ids : List A) (cs : List (Click A)) (selected : List A)
      → IsDistinct ids
      → All (IsShown ids) cs
      → IsSelection ids selected
      → (y : A) → has y (clicks ids cs selected) ≡ set_clicks ids cs (λ z. has z selected) y
  unfolding clicks set_clicks
  clicks_lem ids [] selected d shown s y = refl
  clicks_lem ids (c ∷ cs) selected d (here, shown) s y =
      clicks_lem ids cs (click ids c selected) d shown (click-IsSelection ids c selected d here s) y
      ∙ ap (λ p. set_clicks ids cs p y) (fun_ext (λ z. click-has ids c selected d s z))
