-- ===== src/Json/Keys.antt =====
-- A key that the server sends is the key that is sent back (toCamel and toSnake of api/).
use bv_orchestrator.Json.Case.{camel_key, snake_key}
use Prim.Native.String.{char_at}
use text.Mathlib.TextEquality.{Char-path}
use text.Mathlib.TextLemmas.{cons-append, nil-append}
use bv_orchestrator.Common.{
  ◌==◌, nat_eq, string_eq, Bool-cases, every, has, has-every, ◌+++◌, is_lower, is_upper, lower_char,
  upper_char, ℕ, ◌+◌, ◌-◌, ◌≤◌, ◌<◌, Char, code, String, ◌≡◌, refl, ap, ◌∙◌, inl, inr, Bool, true,
  false, not, ◌&&◌, List, [], ◌∷◌, arith,
}

-- No capital letter in the text.
abbrev pub has_no_upper : String → Bool
has_no_upper String.[] = true
has_no_upper (String.◌∷◌ c s) = not (is_upper (code c)) && has_no_upper s

abbrev below_26 : List ℕ
below_26 =
    0 ∷ 1 ∷ 2 ∷ 3 ∷ 4 ∷ 5 ∷ 6 ∷ 7 ∷ 8 ∷ 9 ∷ 10 ∷ 11 ∷ 12 ∷ 13 ∷ 14 ∷ 15 ∷ 16 ∷ 17 ∷ 18 ∷ 19 ∷ 20
    ∷ 21 ∷ 22 ∷ 23 ∷ 24 ∷ 25 ∷ []

-- The capital of number n is one, and its small letter is that of number n.
abbrev returns : ℕ → Bool
returns n =
    let c = char_at "ABCDEFGHIJKLMNOPQRSTUVWXYZ" n in
    is_upper (code c) && code (lower_char c) == n + 97

below_26-holds : (n : ℕ) → n < 26 → has n below_26 ≡ true
below_26-holds n h = ground arith

all_return : every returns below_26 ≡ true
unfolding lower_char
all_return = refl

letter_returns :
    (c : Char)
    → is_lower (code c) ≡ true
    → (is_upper (code (upper_char c)) ≡ true) × (code (lower_char (upper_char c)) ≡ code c)
unfolding upper_char
letter_returns c h =
    let n = code c - 97 in
    let capital : upper_char c ≡ char_at "ABCDEFGHIJKLMNOPQRSTUVWXYZ" n = rw (h) refl in
    let low : 97 ≤ code c = ground arith in
    let high : code c ≤ 122 = ground arith in
    let back : returns n ≡ true =
      has-every returns n below_26 all_return (below_26-holds n (omega (arith, low, high))) in
    let number : code (lower_char (char_at "ABCDEFGHIJKLMNOPQRSTUVWXYZ" n)) ≡ n + 97 =
      ground arith in
    rw (capital) (ground arith, omega (arith, number, low))

snake_capital :
    (c : Char) (s : String)
    → is_upper (code c) ≡ true
    → snake_key (String.◌∷◌ c s) ≡ "_" +++ String.◌∷◌ (lower_char c) (snake_key s)
unfolding snake_key
snake_capital c s h = rw (h) refl

snake_upper :
    (d : Char) (s : String)
    → is_lower (code d) ≡ true
    → snake_key (String.◌∷◌ (upper_char d) s) ≡ "_" +++ String.◌∷◌ d (snake_key s)
snake_upper d s h =
    let (capital, small) = letter_returns d h in
    let same : lower_char (upper_char d) ≡ d = Char-path (lower_char (upper_char d)) d small in
    snake_capital (upper_char d) s capital ∙ ap (λ c. "_" +++ String.◌∷◌ c (snake_key s)) same

snake_other :
    (c : Char) (s : String)
    → is_upper (code c) ≡ false
    → snake_key (String.◌∷◌ c s) ≡ String.◌∷◌ c (snake_key s)
unfolding snake_key
snake_other c s h = rw (h) refl

underscore : (c : Char) (s : String) → (code c == 95) ≡ true → "_" +++ s ≡ String.◌∷◌ c s
underscore c s h =
    let same : c ≡ char_at "_" 0 = Char-path c (char_at "_" 0) (ground arith) in
    rw (same) (cons-append (char_at "_" 0) "" s ∙ ap (String.◌∷◌ (char_at "_" 0)) (nil-append s))

camel_match :
    (c d : Char) (s : String)
    → (code c == 95 && is_lower (code d)) ≡ true
    → camel_key (String.◌∷◌ c (String.◌∷◌ d s)) ≡ String.◌∷◌ (upper_char d) (camel_key s)
unfolding camel_key
camel_match c d s h = rw (h) refl

camel_other :
    (c d : Char) (s : String)
    → (code c == 95 && is_lower (code d)) ≡ false
    → camel_key (String.◌∷◌ c (String.◌∷◌ d s)) ≡ String.◌∷◌ c (camel_key (String.◌∷◌ d s))
unfolding camel_key
camel_other c d s h = rw (h) refl

camel_one : (c : Char) → camel_key (String.◌∷◌ c "") ≡ String.◌∷◌ c ""
unfolding camel_key
camel_one c = refl

-- A key without capital letters comes back unchanged when it is renamed as the answers of the server
-- are and then as what is sent to it is.
pub snake_key-camel_key : (k : String) → has_no_upper k ≡ true → snake_key (camel_key k) ≡ k
unfolding snake_key camel_key
snake_key-camel_key String.[] h = refl
snake_key-camel_key (String.◌∷◌ c String.[]) h = rw (camel_one c) (snake_other c "" (ground arith))
snake_key-camel_key (String.◌∷◌ c (String.◌∷◌ d s)) h =
    let after = snake_key-camel_key s (ground arith) in
    let rest = snake_key-camel_key (String.◌∷◌ d s) (ground arith) in
    elim (Bool-cases (code c == 95 && is_lower (code d))) [
      | inl y ↦
          ap snake_key (camel_match c d s y)
          ∙ snake_upper d (camel_key s) (ground arith)
          ∙ ap (λ t. "_" +++ String.◌∷◌ d t) after
          ∙ underscore c (String.◌∷◌ d s) (ground arith)
      | inr n ↦
          ap snake_key (camel_other c d s n)
          ∙ snake_other c (camel_key (String.◌∷◌ d s)) (ground arith)
          ∙ ap (String.◌∷◌ c) rest
    ]
