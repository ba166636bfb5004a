-- ===== src/Common/Text.antt =====
-- The string methods that the program calls, over the native texts. A position and a length count
-- characters; case mapping is that of ASCII letters, which is all that the program's keys,
-- statuses and options hold.
use Prim.Native.Nat.{ℕ, zero, suc, ◌-◌, ◌/◌, ◌%◌}
use Prim.Native.Char.{Char, code}
use Prim.Native.String
use Prim.Native.String.{String, [], ◌∷◌, char_at, find, len}
use mathlib.Core.Path.{◌≡◌, refl}
use mathlib.Core.Bool.{Bool, true, false, ◌&&◌, ◌||◌}
use mathlib.Core.Option.{Option, none, some}
use mathlib.Core.List.{List}
use bv_orchestrator.Common.Tests.{leb, ◌==◌, nat_eq, if◌then◌else◌}

infixr 65 ◌+++◌
-- `s + t`, and the pieces of a template text
abbrev pub ◌+++◌ : String → String → String
s +++ t = String.◌++◌ s t

abbrev pub is_empty : String → Bool
is_empty [] = true
is_empty (c ∷ s) = false

-- `s || t`
abbrev pub or_text : String → String → String
or_text [] t = t
or_text (c ∷ s) t = c ∷ s

pub or_text_self : (s d : String) → is_empty s ≡ false → or_text s d ≡ s
or_text_self [] d h = cc
or_text_self (c ∷ s) d h = refl

-- `o || t` where `o` may be null or undefined
abbrev pub text_or : Option String → String → String
text_or none t = t
text_or (some s) t = or_text s t

-- what `trim` and `\s` take off: WhiteSpace and LineTerminator
unfoldable pub is_space : ℕ → Bool
is_space c =
    leb 9 c && leb c 13
    || c == 32
    || c == 160
    || c == 5760
    || leb 8192 c && leb c 8202
    || c == 8232
    || c == 8233
    || c == 8239
    || c == 8287
    || c == 12288
    || c == 65279

unfoldable pub trim_start : String → String
unfolding is_space
trim_start [] = []
trim_start (c ∷ s) = if is_space (code c) then trim_start s else c ∷ s

unfoldable pub trim_end : String → String
unfolding is_space
trim_end [] = []
trim_end (c ∷ s) =
    let rest = trim_end s in if is_empty rest && is_space (code c) then [] else c ∷ rest

-- `s.trim()`
unfoldable pub trim : String → String
unfolding trim_start trim_end
trim s = trim_end (trim_start s)

abbrev pub is_digit : ℕ → Bool
is_digit c = leb b'0' c && leb c b'9'

abbrev pub is_lower : ℕ → Bool
is_lower c = leb b'a' c && leb c b'z'

abbrev pub is_upper : ℕ → Bool
is_upper c = leb b'A' c && leb c b'Z'

-- `c.toLowerCase()` and `c.toUpperCase()` of one character
unfoldable pub lower_char : Char → Char
lower_char c = if is_upper (code c) then char_at "abcdefghijklmnopqrstuvwxyz" (code c - b'A') else c

unfoldable pub upper_char : Char → Char
upper_char c = if is_lower (code c) then char_at "ABCDEFGHIJKLMNOPQRSTUVWXYZ" (code c - b'a') else c

-- `s.toLowerCase()`
unfoldable pub to_lower : String → String
unfolding lower_char
to_lower [] = []
to_lower (c ∷ s) = lower_char c ∷ to_lower s

-- `s.includes(t)`
abbrev pub includes : String → String → Bool
includes s t = leb (find s t) (len s)

-- `s.split(sep)` at a one-character separator; `cur` is the part being read
abbrev pub split_from : ℕ → String → String → List String
split_from sep cur [] = List.◌∷◌ cur List.[]
split_from sep cur (c ∷ s) =
    let closed = List.◌∷◌ cur (split_from sep "" s) in
    let longer = split_from sep (cur +++ (c ∷ [])) s in if code c == sep then closed else longer

unfoldable pub split : ℕ → String → List String
split sep s = split_from sep "" s

-- `xs.join(sep)`
unfoldable pub join : String → List String → String
join sep List.[] = ""
join sep (List.◌∷◌ x List.[]) = x
join sep (List.◌∷◌ x (List.◌∷◌ y ys)) = x +++ sep +++ join sep (List.◌∷◌ y ys)

-- The decimal digits of a number, put in front of `acc`; a number has fewer digits than its value.
show_from : ℕ → ℕ → String → String
show_from zero n acc = acc
show_from (suc fuel) n acc =
    let acc' = char_at "0123456789" (n % 10) ∷ acc in
    let rest = show_from fuel (n / 10) acc' in if n / 10 == 0 then acc' else rest

-- `String(n)` of a natural number
unfoldable pub show_nat : ℕ → String
unfolding show_from
show_nat n = show_from (suc n) n ""

show_nat_test : show_nat 1203 ≡ "1203"
unfolding show_nat
show_nat_test = refl

trim_test : trim " a b " ≡ "a b"
unfolding trim
trim_test = refl

lower_test : to_lower "In_PROGRESS" ≡ "in_progress"
unfolding to_lower
lower_test = refl
