-- ===== src/Common/Number.antt =====
-- JavaScript's `number`, as far as the forms of the program compute with it: decimal values are
-- exact here (no rounding to a double, and -0 is 0), and a text becomes a number by the grammar of
-- `Number(text)`.
use Prim.Native.Nat.{ℕ, zero, suc, ◌+◌, ◌-◌, ◌*◌, ◌/◌, ◌%◌, ◌^◌}
use Prim.Native.Char.{code}
use Prim.Native.String.{String, [], ◌∷◌, char_at}
use mathlib.Core.Path.{◌≡◌, refl}
use mathlib.Core.Bool.{Bool, true, false, ◌&&◌, ◌||◌, not}
use bv_orchestrator.Common.Tests.{ltb, leb, ◌==◌, nat_eq, string_eq, if◌then◌else◌}
use bv_orchestrator.Common.Text.{◌+++◌, is_empty, is_digit, trim, show_nat}
use bv_orchestrator.Common.Int.{ℤ, pos, negsuc, sub_ℕ}

-- `frac z s` lies strictly between `z` and `z + 1`, and prints as `s`.
pub data Number : Type 0 where
  nan : Number
  infinite : (negative : Bool) → Number
  int : ℤ → Number
  frac : (floor : ℤ) (text : String) → Number

-- `n ? … : …`, and the left side of `n || d`
abbrev pub is_truthy : Number → Bool
is_truthy nan = false
is_truthy (int (pos zero)) = false
is_truthy _ = true

-- `n || d`
abbrev pub or_number : Number → Number → Number
or_number n d = if is_truthy n then n else d

-- `Number.isFinite(n)`
abbrev pub is_finite : Number → Bool
is_finite nan = false
is_finite (infinite b) = false
is_finite (int z) = true
is_finite (frac z s) = true

-- `n < k`
abbrev pub below : Number → ℕ → Bool
below nan k = false
below (infinite b) k = b
below (int (pos n)) k = ltb n k
below (int (negsuc n)) k = true
below (frac (pos n) s) k = ltb n k
below (frac (negsuc n) s) k = true

-- `n > k`
abbrev pub above : Number → ℕ → Bool
above nan k = false
above (infinite b) k = not b
above (int (pos n)) k = ltb k n
above (int (negsuc n)) k = false
above (frac (pos n) s) k = leb k n
above (frac (negsuc n) s) k = false

-- `String(n)`
unfoldable pub show_number : Number → String
unfolding show_nat
show_number nan = "NaN"
show_number (infinite false) = "Infinity"
show_number (infinite true) = "-Infinity"
show_number (int (pos n)) = show_nat n
show_number (int (negsuc n)) = "-" +++ show_nat (suc n)
show_number (frac z s) = s

abbrev negate_if : Bool → ℕ → ℤ
negate_if false n = pos n
negate_if true n = sub_ℕ 0 n

-- The digits of r / d after the point, without trailing zeros; k places are enough where d is 10^k.
places : ℕ → ℕ → ℕ → String
places zero r d = ""
places (suc k) r d =
    let rest = places k (r * 10 % d) d in
    if r == 0 then "" else char_at "0123456789" (r * 10 / d) ∷ rest

-- ± m / 10^k
scaled : Bool → ℕ → ℕ → Number
unfolding places show_nat
scaled negative m k =
    let d = 10 ^ k in
    if m % d == 0
    then int (negate_if negative (m / d))
    else frac (if negative then negsuc (m / d) else pos (m / d))
        ((if negative then "-" else "") +++ show_nat (m / d) +++ "." +++ places k (m % d) d)

-- ± m * 10^e / 10^f, where e is given by its sign and size
power : Bool → ℕ → ℕ → Bool → ℕ → Number
unfolding scaled
power negative m f false e = scaled negative (m * 10 ^ e) f
power negative m f true e = scaled negative m (f + e)

-- The value and the count of the leading decimal digits, and what follows them.
digits : ℕ → ℕ → String → ℕ × ℕ × String
digits value count [] = (value, count, "")
digits value count (c ∷ s) =
    let more = digits (value * 10 + (code c - b'0')) (count + 1) s in
    if is_digit (code c) then more else (value, count, c ∷ s)

sign : String → Bool × String
sign [] = (false, "")
sign (c ∷ s) =
    if code c == b'-' then (true, s) else if code c == b'+' then (false, s) else (false, c ∷ s)

-- What follows the mantissa: nothing, or an exponent of at least one digit.
exponent : Bool → ℕ → ℕ → String → Number
unfolding power digits sign
exponent negative m f [] = power negative m f false 0
exponent negative m f (c ∷ s) =
    let (down, t) = sign s in
    let (e, count, rest) = digits 0 0 t in
    if (code c == b'e' || code c == b'E') && ltb 0 count && is_empty rest
    then power negative m f down e
    else nan

-- What follows the digits before the point, `count` of them.
fraction : Bool → ℕ → ℕ → String → Number
unfolding exponent digits
fraction negative m count [] = if ltb 0 count then exponent negative m 0 "" else nan
fraction negative m count (c ∷ s) =
    let (m', places, rest) = digits m 0 s in
    if code c == b'.'
    then (if ltb 0 (count + places) then exponent negative m' places rest else nan)
    else if ltb 0 count
    then exponent negative m 0 (c ∷ s)
    else nan

unsigned : Bool → String → Number
unfolding fraction digits
unsigned negative s =
    if s == "Infinity"
    then infinite negative
    else let (m, count, rest) = digits 0 0 s in fraction negative m count rest

-- the value of a digit to a base of at most 16, or 16
digit_value : ℕ → ℕ
digit_value c =
    if is_digit c
    then c - b'0'
    else if leb b'a' c && leb c b'f'
    then c - 87
    else if leb b'A' c && leb c b'F'
    then c - 55
    else 16

-- the digits after 0x, 0o and 0b
radix : ℕ → ℕ → String → Number
unfolding digit_value
radix base value [] = int (pos value)
radix base value (c ∷ s) =
    let rest = radix base (value * base + digit_value (code c)) s in
    if ltb (digit_value (code c)) base then rest else nan

radix_of : ℕ → ℕ
radix_of c =
    if c == b'x' || c == b'X'
    then 16
    else if c == b'o' || c == b'O'
    then 8
    else if c == b'b' || c == b'B'
    then 2
    else 0

prefixed : String → Number
unfolding radix radix_of unsigned sign
prefixed (c ∷ d ∷ e ∷ s) =
    if code c == b'0' && ltb 0 (radix_of (code d))
    then radix (radix_of (code d)) 0 (e ∷ s)
    else let (negative, t) = sign (c ∷ d ∷ e ∷ s) in unsigned negative t
prefixed s = let (negative, t) = sign s in unsigned negative t

-- `Number(s)`
unfoldable pub to_number : String → Number
unfolding prefixed trim
to_number s = let t = trim s in if is_empty t then int (pos 0) else prefixed t

to_number_tests :
    (to_number " 42 " ≡ int (pos 42))
    × (to_number "-7" ≡ int (negsuc 6))
    × (to_number "" ≡ int (pos 0))
    × (to_number "1.50" ≡ frac (pos 1) "1.5")
    × (to_number "-.5" ≡ frac (negsuc 0) "-0.5")
    × (to_number "1e3" ≡ int (pos 1000))
    × (to_number "0x1f" ≡ int (pos 31))
    × (to_number "09:00" ≡ nan)
    × (to_number "8d5f-11" ≡ nan)
unfolding to_number
to_number_tests = (refl, refl, refl, refl, refl, refl, refl, refl, refl)
