-- ===== src/Common/Subset.antt =====
-- Lists of which the one has all that the other has: their lengths, and what is left when an element is taken
-- out or added.
use bv_orchestrator.Common.Distinct.{IsDistinct}
use bv_orchestrator.Common.{
  Eq, ◌==◌, nat_eq, string_eq, if◌then◌else◌, Bool-cases, length, keep, every, has, has-every, ◌≤◌,
  ◌<◌, ◌≡◌, refl, sym, ap, ◌∙◌, inl, inr, Bool, true, false, not, ◌||◌, List, [], ◌∷◌, ◌++◌, arith,
}

module _ {A : Type 0} ⦃eq : Eq A⦄ where
  -- Whatever the one has the other has.
  abbrev pub Within : List A → List A → Type 0
  Within xs ys = (y : A) → has y xs ≡ true → has y ys ≡ true

  pub same_id : (x y : A) → (x == y) ≡ true → x ≡ y
  same_id x y h = (eq.beq_iff x y).0 h

  self_id : (x : A) → (x == x) ≡ true
  self_id x = (eq.beq_iff x x).1 refl

  pub flipped : (x y : A) → (x == y) ≡ (y == x)
  flipped x y = elim (Bool-cases (x == y)) [
    | inl same ↦ rw (same_id x y same) refl
    | inr other ↦ elim (Bool-cases (y == x)) [
      | inl same ↦ rw (same_id y x same) refl
      | inr neither ↦ other ∙ sym neither
    ]
  ]

  pub has-without :
      (x y : A) (xs : List A)
      → has y (keep (λ z. not (z == x)) xs) ≡ (if y == x then false else has y xs)
  has-without x y [] = ground arith
  has-without x y (z ∷ xs) = elim (Bool-cases (z == x)) [
    | inl same ↦
        let rest = has-without x y xs in
        let e = same_id z x same in
        let turned : (z == y) ≡ (y == x) = ap (λ t. t == y) e ∙ flipped x y in
        rw (same) (elim (Bool-cases (y == x)) [
          | inl here ↦ rw (here) (ground arith)
          | inr gone ↦ rw (gone) (ground arith)
        ])
    | inr other ↦
        let rest = has-without x y xs in
        rw (other) (elim (Bool-cases (y == x)) [
          | inl here ↦
              (let apart : (z == y) ≡ false = ap (λ t. z == t) (same_id y x here) ∙ other in
                rw (here) (ground arith))
          | inr gone ↦ rw (gone) (ground arith)
        ])
  ]

  pub has-added : (x y : A) (xs : List A) → has y (xs ++ (x ∷ [])) ≡ (has y xs || x == y)
  has-added x y [] = ground arith
  has-added x y (z ∷ xs) = let rest = has-added x y xs in ground arith

  without_shorter : (x : A) (xs : List A) → length (keep (λ z. not (z == x)) xs) ≤ length xs
  without_shorter x [] = omega arith
  without_shorter x (y ∷ xs) = let rest = without_shorter x xs in ground arith

  without_less :
      (x : A) (xs : List A) → has x xs ≡ true → length (keep (λ z. not (z == x)) xs) < length xs
  without_less x [] h = cc
  without_less x (y ∷ xs) h = elim (Bool-cases (y == x)) [
    | inl same ↦ rw (same) (let rest = without_shorter x xs in omega (arith, rest))
    | inr other ↦ rw (other) (let rest = without_less x xs (ground arith) in omega (arith, rest))
  ]

  -- A list without repetition is no longer than one that has all it has.
  length-Within : (xs ys : List A) → IsDistinct xs → Within xs ys → length xs ≤ length ys
  length-Within [] ys d w = omega arith
  length-Within (x ∷ xs) ys (new, d) w =
      let there = w x (ground (arith, self_id x)) in
      let less = without_less x ys there in
      let within : Within xs (keep (λ z. not (z == x)) ys) = λ y h. elim (Bool-cases (y == x)) [
        | inl same ↦ absurd (let e = ap (λ t. has t xs) (same_id y x same) in cc)
        | inr other ↦ has-without x y ys ∙ rw (other) (w y (ground arith))
      ] in
      let rest = length-Within xs (keep (λ z. not (z == x)) ys) d within in
      omega (arith, less, rest)

  every_intro :
      (p : A → Bool) (xs : List A) → ((y : A) → has y xs ≡ true → p y ≡ true) → every p xs ≡ true
  every_intro p [] f = refl
  every_intro p (x ∷ xs) f =
      let here = f x (ground (arith, self_id x)) in
      let rest = every_intro p xs (λ y h. f y (ground arith)) in ground arith

  every_elim :
      (p : A → Bool) (xs : List A) → every p xs ≡ true → (y : A) → has y xs ≡ true → p y ≡ true
  every_elim p xs h y k = has-every p y xs h k

  -- A list as long as one that has all it has leaves out none of it.
  same_length :
      (xs ys : List A)
      → IsDistinct xs
      → Within xs ys
      → (length xs == length ys) ≡ true
      → (z : A) → has z ys ≡ true
      → has z xs ≡ true
  same_length xs ys d w same z h = elim (Bool-cases (has z xs)) [
    | inl here ↦ here
    | inr gone ↦
        (let longer =
            length-Within (z ∷ xs) ys (gone, d)
              (λ y k. elim (Bool-cases (z == y)) [
                | inl e ↦ ap (λ t. has t ys) (sym (same_id z y e)) ∙ h
                | inr e ↦ w y (ground arith)
              ]) in
          absurd (ground arith))
  ]

  -- Among lists without repetition of which the one has no other elements than the other, the lengths are equal
  -- exactly when the elements are.
  pub length-every :
      (xs ys : List A)
      → IsDistinct xs
      → IsDistinct ys
      → Within xs ys
      → (length xs == length ys) ≡ every (λ z. has z xs) ys
  length-every xs ys d d' w = elim (Bool-cases (every (λ z. has z xs) ys)) [
    | inl full ↦
        let back = length-Within ys xs d' (every_elim (λ z. has z xs) ys full) in
        let there = length-Within xs ys d w in rw (full) (ground arith)
    | inr part ↦ elim (Bool-cases (length xs == length ys)) [
      | inl same ↦
          (let full = every_intro (λ z. has z xs) ys (same_length xs ys d w same) in absurd cc)
      | inr other ↦ rw (part) other
    ]
  ]
