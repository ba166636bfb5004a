-- ===== src/Common/Sorting.antt =====
-- `Array.prototype.sort`, by the comparison of two elements: is the first to come after the second?
use bv_orchestrator.Common.Tests.{if◌then◌else◌, Bool-cases}
use bv_orchestrator.Common.Lists.{length, keep, All}
use mathlib.Core.Path.{◌≡◌, refl}
use mathlib.Core.Bool.{Bool, true, false}
use mathlib.Core.Logic.{inl, inr}
use mathlib.Core.List.{List, [], ◌∷◌}
use native.Mathlib.Omega.{arith}

module _ {ℓ} {A : Type ℓ} (after : A → A → Bool) where
  -- The sort is stable: an element goes before those that it is not to come after.
  abbrev pub insert : A → List A → List A
  insert it [] = it ∷ []
  insert it (x ∷ xs) = if after it x then x ∷ insert it xs else it ∷ x ∷ xs

  abbrev pub sort : List A → List A
  sort [] = []
  sort (x ∷ xs) = insert x (sort xs)

  -- No element stands right before one that it is to come after.
  abbrev pub IsSorted : List A → Type 0
  IsSorted [] = Unit
  IsSorted (x ∷ []) = Unit
  IsSorted (x ∷ y ∷ xs) = (after x y ≡ false) × IsSorted (y ∷ xs)

  -- of one kind, there are as many as before
  count-insert :
      (p : A → Bool) (it : A) (xs : List A)
      → length (keep p (insert it xs)) ≡ length (keep p (it ∷ xs))
  count-insert p it [] = refl
  count-insert p it (x ∷ xs) = let rest = count-insert p it xs in ground arith

  pub count-sort : (p : A → Bool) (xs : List A) → length (keep p (sort xs)) ≡ length (keep p xs)
  count-sort p [] = refl
  count-sort p (x ∷ xs) =
      let rest = count-sort p xs in let here = count-insert p x (sort xs) in ground arith

  length-insert : (it : A) (xs : List A) → length (insert it xs) ≡ length (it ∷ xs)
  length-insert it [] = refl
  length-insert it (x ∷ xs) = let rest = length-insert it xs in ground arith

  pub length-sort : (xs : List A) → length (sort xs) ≡ length xs
  length-sort [] = refl
  length-sort (x ∷ xs) =
      let rest = length-sort xs in let here = length-insert x (sort xs) in ground arith

  module _ {κ} (P : A → Type κ) where
    All-insert : (it : A) (xs : List A) → P it → All P xs → All P (insert it xs)
    All-insert it [] p h = (p, tt)
    All-insert it (x ∷ xs) p (q, h) = elim (Bool-cases (after it x)) [
      | inl y ↦ rw (y) (q, All-insert it xs p h)
      | inr n ↦ rw (n) (p, (q, h))
    ]

    pub All-sort : (xs : List A) → All P xs → All P (sort xs)
    All-sort [] h = tt
    All-sort (x ∷ xs) (p, h) = All-insert x (sort xs) p (All-sort xs h)

  -- A comparison may be one only among the elements with `D`.
  module _ {κ} (D : A → Type κ)
      (asym : (x y : A) → D x → D y → after x y ≡ true → after y x ≡ false) where
    insert_among-IsSorted :
        (it : A) (xs : List A) → D it → All D xs → IsSorted xs → IsSorted (insert it xs)
    insert_among-IsSorted it [] d ds h = tt
    insert_among-IsSorted it (x ∷ []) d (e, ds) h = elim (Bool-cases (after it x)) [
      | inl y ↦ rw (y) (asym it x d e y, tt)
      | inr n ↦ rw (n) (n, tt)
    ]
    insert_among-IsSorted it (x ∷ y ∷ xs) d (e, ds) (a, h) = elim (Bool-cases (after it x)) [
      | inr n ↦ rw (n) (n, (a, h))
      | inl p ↦
          (let rest : IsSorted (insert it (y ∷ xs)) = insert_among-IsSorted it (y ∷ xs) d ds h in
            elim (Bool-cases (after it y)) [
              | inl q ↦ rw (p, q) (a, (rw (q) at rest))
              | inr n ↦ rw (p, n) (asym it x d e p, (n, h))
            ])
    ]

    pub sort_among-IsSorted : (xs : List A) → All D xs → IsSorted (sort xs)
    sort_among-IsSorted [] ds = tt
    sort_among-IsSorted (x ∷ xs) (d, ds) =
        insert_among-IsSorted x (sort xs) d (All-sort D xs ds) (sort_among-IsSorted xs ds)

  All-unit : (xs : List A) → All (λ x. Unit {0}) xs
  All-unit [] = tt
  All-unit (x ∷ xs) = (tt, All-unit xs)

  module _ (asym : (x y : A) → after x y ≡ true → after y x ≡ false) where
    pub sort-IsSorted : (xs : List A) → IsSorted (sort xs)
    sort-IsSorted xs =
        sort_among-IsSorted (λ x. Unit {0}) (λ x y d e h. asym x y h) xs (All-unit xs)
