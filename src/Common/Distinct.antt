-- ===== src/Common/Distinct.antt =====
-- Lists without repetition, and the two halves of a toggle.
use bv_orchestrator.Common.{
  Eq, ◌==◌, nat_eq, string_eq, Bool-cases, keep, has, ◌≡◌, refl, sym, inl, inr, Bool, true, false,
  List, [], ◌∷◌, ◌++◌, arith,
}

module _ {A : Type 0} ⦃eq : Eq A⦄ where
  -- No element is there twice.
  abbrev pub IsDistinct : List A → Type 0
  IsDistinct [] = Unit
  IsDistinct (x ∷ xs) = (has x xs ≡ false) × IsDistinct xs

  has-keep : (p : A → Bool) (x : A) (xs : List A) → has x xs ≡ false → has x (keep p xs) ≡ false
  has-keep p x [] h = refl
  has-keep p x (y ∷ ys) h = let rest = has-keep p x ys (ground arith) in ground arith

  pub keep-IsDistinct : (p : A → Bool) (xs : List A) → IsDistinct xs → IsDistinct (keep p xs)
  keep-IsDistinct p [] h = h
  keep-IsDistinct p (x ∷ xs) (n, h) = elim (Bool-cases (p x)) [
    | inl y ↦ rw (y) (has-keep p x xs n, keep-IsDistinct p xs h)
    | inr m ↦ rw (m) (keep-IsDistinct p xs h)
  ]

  has-append :
      (x y : A) (xs : List A) → has x xs ≡ false → (y == x) ≡ false → has x (xs ++ (y ∷ [])) ≡ false
  has-append x y [] h k = ground arith
  has-append x y (z ∷ xs) h k = let rest = has-append x y xs (ground arith) k in ground arith

  differ : (x y : A) → (x == y) ≡ false → (y == x) ≡ false
  differ x y h = elim (Bool-cases (y == x)) [
    | inl same ↦
        (let e : y ≡ x = (eq.beq_iff y x).0 same in
          let no : (x == y) ≡ true = (eq.beq_iff x y).1 (sym e) in absurd cc)
    | inr other ↦ other
  ]

  pub append-IsDistinct :
      (y : A) (xs : List A) → has y xs ≡ false → IsDistinct xs → IsDistinct (xs ++ (y ∷ []))
  append-IsDistinct y [] h k = (refl, tt)
  append-IsDistinct y (x ∷ xs) h (n, k) =
      let x_y : (x == y) ≡ false = ground arith in
      (has-append x y xs n (differ x y x_y), append-IsDistinct y xs (ground arith) k)
