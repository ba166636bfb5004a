-- ===== src/Logs/Reader.antt =====
-- A reader of comma-separated values, in which a value in quotes may have commas and the ends of lines, and two
-- quotes stand for one.
use bv_orchestrator.Common.{
  ◌==◌, nat_eq, string_eq, if◌then◌else◌, is_empty, ℕ, zero, suc, Char, code, String, Bool, true,
  false, ◌||◌, Option, none, some, List, [], ◌∷◌,
}

abbrev pub before : Char → String × String → String × String
before c (f, rest) = (String.◌∷◌ c f, rest)

-- a value without quotes, up to a comma or the end of a line
unfoldable pub read_plain : String → String × String
read_plain String.[] = (String.[], String.[])
read_plain (String.◌∷◌ c s) =
    let rest = read_plain s in
    if code c == 44 || code c == 10 then (String.[], String.◌∷◌ c s) else before c rest

-- The inside of a value in quotes; the flag says whether the last character was a quote.
unfoldable pub read_quoted : Bool → String → String × String
read_quoted b String.[] = (String.[], String.[])
read_quoted false (String.◌∷◌ c s) =
    let closed = read_quoted true s in
    let open_still = read_quoted false s in if code c == 34 then closed else before c open_still
read_quoted true (String.◌∷◌ c s) =
    let rest = read_quoted false s in
    if code c == 34 then before c rest else (String.[], String.◌∷◌ c s)

unfoldable pub read_value : String → String × String
unfolding read_plain read_quoted
read_value String.[] = (String.[], String.[])
read_value (String.◌∷◌ c s) =
    if code c == 34 then read_quoted false s else read_plain (String.◌∷◌ c s)

-- what follows a character that has to come
abbrev pub expect : ℕ → String → Option String
expect k String.[] = none
expect k (String.◌∷◌ c s) = if code c == k then some s else none

abbrev pub with_value : String → Option (List String × String) → Option (List String × String)
with_value v none = none
with_value v (some (vs, rest)) = some (v ∷ vs, rest)

-- A line of so many values, with a comma between two.
unfoldable pub read_values : ℕ → String → Option (List String × String)
unfolding read_value
read_values zero s = some ([], s)
read_values (suc zero) s = some ((read_value s).0 ∷ [], (read_value s).1)
read_values (suc (suc n)) s = elim (expect 44 (read_value s).1) [
  | none ↦ none
  | some t ↦ with_value (read_value s).0 (read_values (suc n) t)
]

abbrev pub with_line : List String → Option (List (List String)) → Option (List (List String))
with_line l none = none
with_line l (some ls) = some (l ∷ ls)

-- The whole text: so many lines of so many values, with the end of a line between two.
unfoldable pub read_csv : (width lines : ℕ) → String → Option (List (List String))
unfolding read_values
read_csv width zero s = if is_empty s then some [] else none
read_csv width (suc zero) s = elim (read_values width s) [
  | none ↦ none
  | some (l, rest) ↦ if is_empty rest then some (l ∷ []) else none
]
read_csv width (suc (suc n)) s = elim (read_values width s) [
  | none ↦ none
  | some (l, rest) ↦ elim (expect 10 rest) [
    | none ↦ none
    | some t ↦ with_line l (read_csv width (suc n) t)
  ]
]

-- a comma, the end of a line or the end of the text
abbrev pub ends : String → Bool
ends String.[] = true
ends (String.◌∷◌ c s) = code c == 44 || code c == 10
