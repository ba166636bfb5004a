-- ===== src/Common/Lists.antt =====
-- Lists measured by native numbers, with the array methods that the program calls.
use Prim.Native.Nat.{ℕ, zero, suc, ◌+◌, ◌-◌, ◌<◌, min}
use mathlib.Core.Path.{◌≡◌, refl}
use mathlib.Core.Bool.{Bool, true, false, ◌||◌, ◌&&◌}
use mathlib.Core.Logic.{inl, inr}
use mathlib.Core.List.{List, [], ◌∷◌, ◌++◌}
use mathlib.Core.Option.{Option, none, some}
use native.Mathlib.Omega.{arith}
use bv_orchestrator.Common.Tests.{Eq, ◌==◌, if◌then◌else◌, Bool-cases}

module _ {ℓ} {A : Type ℓ} where
  abbrev pub length : List A → ℕ
  length [] = 0
  length (x ∷ xs) = suc (length xs)

  abbrev pub get_elem? : List A → ℕ → Option A
  get_elem? [] i = none
  get_elem? (x ∷ xs) zero = some x
  get_elem? (x ∷ xs) (suc i) = get_elem? xs i

  abbrev pub take : ℕ → List A → List A
  take zero xs = []
  take (suc n) [] = []
  take (suc n) (x ∷ xs) = x ∷ take n xs

  abbrev pub drop : ℕ → List A → List A
  drop zero xs = xs
  drop (suc n) [] = []
  drop (suc n) (x ∷ xs) = drop n xs

  -- `xs.filter(p)`, by a Boolean test
  abbrev pub keep : (A → Bool) → List A → List A
  keep p [] = []
  keep p (x ∷ xs) = if p x then x ∷ keep p xs else keep p xs

  -- `xs.find(p)`
  abbrev pub find_first : (A → Bool) → List A → Option A
  find_first p [] = none
  find_first p (x ∷ xs) = if p x then some x else find_first p xs

  -- `xs.length === 0`
  abbrev pub is_nil : List A → Bool
  is_nil [] = true
  is_nil (x ∷ xs) = false

  -- `xs.some(p)`
  abbrev pub any : (A → Bool) → List A → Bool
  any p [] = false
  any p (x ∷ xs) = p x || any p xs

  -- `xs.every(p)`
  abbrev pub every : (A → Bool) → List A → Bool
  every p [] = true
  every p (x ∷ xs) = p x && every p xs

  -- `xs.includes(x)`
  abbrev pub has : ⦃e : Eq A⦄ → A → List A → Bool
  has x [] = false
  has x (y ∷ ys) = y == x || has x ys

  -- What holds of all the elements holds of one of them.
  pub has-every :
      ⦃e : Eq A⦄ (p : A → Bool) (x : A) (xs : List A)
      → every p xs ≡ true
      → has x xs ≡ true
      → p x ≡ true
  has-every ⦃e⦄ p x [] h k = cc
  has-every ⦃e⦄ p x (y ∷ ys) h k = elim (Bool-cases (y == x)) [
    | inl same ↦ (let q : y ≡ x = (e.beq_iff y x).0 same in ground arith)
    | inr other ↦ has-every p x ys (ground arith) (ground arith)
  ]

  length-append : (xs ys : List A) → length (xs ++ ys) ≡ length xs + length ys
  length-append [] ys = omega arith
  length-append (x ∷ xs) ys = omega (arith, length-append xs ys)

  pub get_elem?-below : (xs : List A) (i : ℕ) → i < length xs → (a : A) × (get_elem? xs i ≡ some a)
  get_elem?-below [] i h = absurd (omega (arith, h))
  get_elem?-below (x ∷ xs) zero h = (x, refl)
  get_elem?-below (x ∷ xs) (suc i) h = get_elem?-below xs i (omega (arith, h))

  take-append-drop : (n : ℕ) (xs : List A) → take n xs ++ drop n xs ≡ xs
  take-append-drop zero xs = refl
  take-append-drop (suc n) [] = refl
  take-append-drop (suc n) (x ∷ xs) = rw (take-append-drop n xs)

  pub length-take : (n : ℕ) (xs : List A) → length (take n xs) ≡ min n (length xs)
  length-take zero xs = omega arith
  length-take (suc n) [] = omega arith
  length-take (suc n) (x ∷ xs) = omega (arith, length-take n xs)

  pub length-drop : (n : ℕ) (xs : List A) → length (drop n xs) ≡ length xs - n
  length-drop zero xs = omega arith
  length-drop (suc n) [] = omega arith
  length-drop (suc n) (x ∷ xs) = omega (arith, length-drop n xs)

module _ {ℓ κ} {A : Type ℓ} (P : A → Type κ) where
  abbrev pub All : List A → Type κ
  All [] = Unit
  All (x ∷ xs) = P x × All xs

module _ {ℓ κ μ} {A : Type ℓ} (P : A → Type κ) (Q : A → Type μ) where
  pub All-weaken : ((x : A) → P x → Q x) → (xs : List A) → All P xs → All Q xs
  All-weaken f [] h = tt
  All-weaken f (x ∷ xs) (p, h) = (f x p, All-weaken f xs h)

module _ {ℓ} {A : Type ℓ} (q : A → A → Bool) where
  -- Each element that is like itself has one in the list that it is like.
  pub All-any : (xs : List A) → All (λ x. q x x ≡ true → any (q x) xs ≡ true) xs
  All-any [] = tt
  All-any (x ∷ xs) = (
    λ h. ground arith,
    All-weaken (λ y. q y y ≡ true → any (q y) xs ≡ true)
        (λ y. q y y ≡ true → any (q y) (x ∷ xs) ≡ true) (λ y f h. let found = f h in ground arith)
        xs (All-any xs),
  )

module _ {ℓ κ} {A : Type ℓ} (P : A → Type κ) where
  -- Of the elements that are kept, it is enough that it holds where they pass.
  pub All-kept : (p : A → Bool) (xs : List A) → All (λ x. p x ≡ true → P x) xs → All P (keep p xs)
  All-kept p [] h = tt
  All-kept p (x ∷ xs) (f, h) = elim (Bool-cases (p x)) [
    | inl y ↦ rw (y) (f y, All-kept p xs h)
    | inr n ↦ rw (n) (All-kept p xs h)
  ]
