-- ===== src/Common/Pattern.antt =====
-- Regular expressions from `^` to `$`, as far as the program has them: a sequence of classes, each for one
-- character or, with `+`, for one or more. A text stands as the codes of its characters.
use bv_orchestrator.Common.{
  nat_eq, string_eq, Bool-cases, is_nil, every, ℕ, code, String, ◌≡◌, refl, ap, ◌↔◌, inl, inr, Bool,
  true, false, ◌&&◌, ◌||◌, List, [], ◌∷◌, ◌++◌, arith,
}

-- the codes of the characters of a text
abbrev pub codes : String → List ℕ
codes String.[] = []
codes (String.◌∷◌ c s) = code c ∷ codes s

pub data Piece : Type 0 where
  one some_of : (class : ℕ → Bool) → Piece

-- what such an expression means
pub data Matches : List Piece → List ℕ → Type 0 where
  end : Matches [] []
  step :
      {class : ℕ → Bool} {ps : List Piece} {c : ℕ} {s : List ℕ}
      → class c ≡ true
      → Matches ps s
      → Matches (one class ∷ ps) (c ∷ s)
  final :
      {class : ℕ → Bool} {ps : List Piece} {c : ℕ} {s : List ℕ}
      → class c ≡ true
      → Matches ps s
      → Matches (some_of class ∷ ps) (c ∷ s)
  more :
      {class : ℕ → Bool} {ps : List Piece} {c : ℕ} {s : List ℕ}
      → class c ≡ true
      → Matches (some_of class ∷ ps) s
      → Matches (some_of class ∷ ps) (c ∷ s)

-- `test`, which goes back where a class takes too many characters
unfoldable pub test : List Piece → List ℕ → Bool
test [] [] = true
test [] (c ∷ s) = false
test (p ∷ ps) [] = false
test (one class ∷ ps) (c ∷ s) = class c && test ps s
test (some_of class ∷ ps) (c ∷ s) = class c && (test (some_of class ∷ ps) s || test ps s)

test-Matches : (ps : List Piece) (s : List ℕ) → test ps s ≡ true → Matches ps s
unfolding test
test-Matches [] [] h = end
test-Matches [] (c ∷ s) h = cc
test-Matches (one class ∷ ps) [] h = cc
test-Matches (some_of class ∷ ps) [] h = cc
test-Matches (one class ∷ ps) (c ∷ s) h = step (ground arith) (test-Matches ps s (ground arith))
test-Matches (some_of class ∷ ps) (c ∷ s) h = elim (Bool-cases (test ps s)) [
  | inl last ↦ final (ground arith) (test-Matches ps s last)
  | inr other ↦ more (ground arith) (test-Matches (some_of class ∷ ps) s (ground arith))
]

Matches-test : {ps : List Piece} {s : List ℕ} → Matches ps s → test ps s ≡ true
unfolding test
Matches-test end = refl
Matches-test (step h m) = let rest = Matches-test m in ground arith
Matches-test (final h m) = let rest = Matches-test m in ground arith
Matches-test (more h m) = let rest = Matches-test m in ground arith

-- The test decides what the expression means.
pub test_iff : (ps : List Piece) (s : List ℕ) → (test ps s ≡ true) ↔ Matches ps s
test_iff ps s = (test-Matches ps s, Matches-test)

-- A text of one or more characters of a class.
abbrev pub IsSome : (ℕ → Bool) → List ℕ → Type 0
IsSome class s = (is_nil s ≡ false) × (every class s ≡ true)

-- A class with `+` takes one or more characters off the front.
pub some_of_inv :
    {class : ℕ → Bool} {ps : List Piece} {s : List ℕ}
    → Matches (some_of class ∷ ps) s
    → (a : List ℕ) × (b : List ℕ) × IsSome class a × (s ≡ a ++ b) × Matches ps b
some_of_inv (final {c} {s} h m) = (c ∷ [], s, (refl, ground arith), refl, m)
some_of_inv (more {c} h m) =
    let (a, b, (full, all), e, rest) = some_of_inv m in
    (c ∷ a, b, (refl, ground arith), ap (λ xs. c ∷ xs) e, rest)

pub some_of_intro :
    (class : ℕ → Bool) (ps : List Piece) (a b : List ℕ)
    → IsSome class a
    → Matches ps b
    → Matches (some_of class ∷ ps) (a ++ b)
some_of_intro class ps [] b (full, all) m = cc
some_of_intro class ps (c ∷ []) b (full, all) m = final (ground arith) m
some_of_intro class ps (c ∷ d ∷ a) b (full, all) m =
    more (ground arith) (some_of_intro class ps (d ∷ a) b (refl, ground arith) m)

-- A class alone takes one.
pub one_inv :
    {class : ℕ → Bool} {ps : List Piece} {s : List ℕ}
    → Matches (one class ∷ ps) s
    → (c : ℕ) × (b : List ℕ) × (class c ≡ true) × (s ≡ c ∷ b) × Matches ps b
one_inv (step {c} {s} h m) = (c, s, h, refl, m)

pub end_inv : {s : List ℕ} → Matches [] s → s ≡ []
end_inv end = refl
