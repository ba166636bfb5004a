-- ===== src/Logs/Csv.antt =====
-- The export of the logs is read back (LogsView.tsx).
use bv_orchestrator.Logs.Reader.{
  before, read_plain, read_quoted, read_value, with_value, read_values, with_line, read_csv, ends,
}
use bv_orchestrator.Logs.{LogEntry, doubled, needs_quotes, csv_escape, columns, header, export_csv}
use bv_orchestrator.Common.Separators.{lacks}
use text.Mathlib.TextLemmas.{nil-append, cons-append, append-nil, append_assoc}
use bv_orchestrator.Common.{
  ◌==◌, nat_eq, string_eq, Bool-cases, length, ◌+++◌, join, ℕ, suc, Char, code, String, ◌≡◌, refl,
  sym, ap, ◌∙◌, inl, inr, true, false, ◌||◌, some, List, [], ◌∷◌, map, arith,
}

read_plain_lem :
    (v rest : String)
    → lacks 44 v ≡ true
    → lacks 10 v ≡ true
    → ends rest ≡ true
    → read_plain (v +++ rest) ≡ (v, rest)
unfolding read_plain lacks
read_plain_lem String.[] String.[] h k e = rw (nil-append String.[]) refl
read_plain_lem String.[] (String.◌∷◌ c s) h k e = rw (nil-append (String.◌∷◌ c s), e) refl
read_plain_lem (String.◌∷◌ c v) rest h k e =
    let inner : (code c == 44 || code c == 10) ≡ false = ground arith in
    rw (cons-append c v rest, inner)
      (ap (before c) (read_plain_lem v rest (ground arith) (ground arith) e))

quote_closes : (rest : String) → ends rest ≡ true → read_quoted true rest ≡ (String.[], rest)
unfolding read_quoted
quote_closes String.[] e = refl
quote_closes (String.◌∷◌ c s) e =
    let other : (code c == 34) ≡ false = ground arith in rw (other) refl

read_quoted_lem :
    (v rest : String) (q : Char)
    → (code q == 34) ≡ true
    → ends rest ≡ true
    → read_quoted false (doubled v +++ String.◌∷◌ q rest) ≡ (v, rest)
unfolding read_quoted doubled
read_quoted_lem String.[] rest q h e = rw (nil-append (String.◌∷◌ q rest), h) (quote_closes rest e)
read_quoted_lem (String.◌∷◌ c v) rest q h e = elim (Bool-cases (code c == 34)) [
  | inl quote ↦ rw (quote) (
      rw
        (
          cons-append c (String.◌∷◌ c (doubled v)) (String.◌∷◌ q rest),
          cons-append c (doubled v) (String.◌∷◌ q rest),
          quote,
        )
        (ap (before c) (read_quoted_lem v rest q h e)))
  | inr other ↦ rw (other) (
      rw (cons-append c (doubled v) (String.◌∷◌ q rest), other)
        (ap (before c) (read_quoted_lem v rest q h e)))
]

quote_append : (s : String) → "\"" +++ s ≡ String.◌∷◌ "\"" s
quote_append s = cons-append "\"" "" s ∙ ap (String.◌∷◌ "\"") (nil-append s)

read_value_quoted :
    (v rest : String)
    → ends rest ≡ true
    → read_value (("\"" +++ doubled v +++ "\"") +++ rest) ≡ (v, rest)
unfolding read_value
read_value_quoted v rest e =
    rw
      (
        append_assoc "\"" (doubled v +++ "\"") rest,
        append_assoc (doubled v) "\"" rest,
        quote_append rest,
        quote_append (doubled v +++ String.◌∷◌ "\"" rest),
      )
      (read_quoted_lem v rest "\"" refl e)

read_value_plain :
    (v rest : String)
    → needs_quotes v ≡ false
    → ends rest ≡ true
    → read_value (v +++ rest) ≡ (v, rest)
unfolding read_value read_plain lacks
read_value_plain String.[] String.[] h e = rw (nil-append String.[]) refl
read_value_plain String.[] (String.◌∷◌ c s) h e =
    let other : (code c == 34) ≡ false = ground arith in
    rw (nil-append (String.◌∷◌ c s), other, e) refl
read_value_plain (String.◌∷◌ c v) rest h e =
    let other : (code c == 34) ≡ false = ground arith in
    rw (cons-append c v rest, other)
      (ap read_plain (sym (cons-append c v rest))
        ∙ read_plain_lem (String.◌∷◌ c v) rest (ground arith) (ground arith) e)

-- One value: what is written for it is read back, whatever follows.
read_value_lem :
    (v rest : String) → ends rest ≡ true → read_value (csv_escape v +++ rest) ≡ (v, rest)
unfolding csv_escape
read_value_lem v rest e = elim (Bool-cases (needs_quotes v)) [
  | inl quotes ↦ rw (quotes) (read_value_quoted v rest e)
  | inr plain ↦ rw (plain) (read_value_plain v rest plain e)
]

comma_append : (s : String) → "," +++ s ≡ String.◌∷◌ "," s
comma_append s = cons-append "," "" s ∙ ap (String.◌∷◌ ",") (nil-append s)

newline_append : (s : String) → "\n" +++ s ≡ String.◌∷◌ "\n" s
newline_append s = cons-append "\n" "" s ∙ ap (String.◌∷◌ "\n") (nil-append s)

last_value : (s v rest : String) → read_value s ≡ (v, rest) → read_values 1 s ≡ some (v ∷ [], rest)
unfolding read_values
last_value s v rest h = rw (h) refl

next_value :
    (n : ℕ) (s v t : String)
    → read_value s ≡ (v, String.◌∷◌ "," t)
    → read_values (suc (suc n)) s ≡ with_value v (read_values (suc n) t)
unfolding read_values
next_value n s v t h = rw (read_values, h) (ap (λ p. with_value p.0 (read_values (suc n) t)) h)

-- One line: its values are read back, whatever follows.
read_values_lem :
    (v : String) (vs : List String) (rest : String)
    → ends rest ≡ true
    → read_values (suc (length vs)) (join "," (map csv_escape (v ∷ vs)) +++ rest)
      ≡ some (v ∷ vs, rest)
unfolding join
read_values_lem v [] rest e = last_value (csv_escape v +++ rest) v rest (read_value_lem v rest e)
read_values_lem v (w ∷ vs) rest e =
    let tail = join "," (map csv_escape (w ∷ vs)) +++ rest in
    let apart : (csv_escape v +++ "," +++ join "," (map csv_escape (w ∷ vs))) +++ rest
        ≡ csv_escape v +++ String.◌∷◌ "," tail =
      append_assoc (csv_escape v) ("," +++ join "," (map csv_escape (w ∷ vs))) rest
      ∙ ap (λ x. csv_escape v +++ x)
          (append_assoc "," (join "," (map csv_escape (w ∷ vs))) rest ∙ comma_append tail) in
    rw (apart) (
      next_value (length vs) (csv_escape v +++ String.◌∷◌ "," tail) v tail
        (read_value_lem v (String.◌∷◌ "," tail) refl)
      ∙ ap (with_value v) (read_values_lem w vs rest e))

last_line :
    (width : ℕ) (s : String) (l : List String)
    → read_values width s ≡ some (l, "")
    → read_csv width 1 s ≡ some (l ∷ [])
unfolding read_csv
last_line width s l h = rw (read_csv, h) refl

next_line :
    (width n : ℕ) (s t : String) (l : List String)
    → read_values width s ≡ some (l, String.◌∷◌ "\n" t)
    → read_csv width (suc (suc n)) s ≡ with_line l (read_csv width (suc n) t)
unfolding read_csv
next_line width n s t l h = rw (read_csv, h) refl

abbrev line : List String → String
line cols = join "," (map csv_escape cols)

lines_lem :
    (v : String) (vs : List String) (rows : List LogEntry)
    → length (v ∷ vs) ≡ 6
    → read_csv 6 (suc (length rows)) (join "\n" (line (v ∷ vs) ∷ map (λ r. line (columns r)) rows))
      ≡ some ((v ∷ vs) ∷ map columns rows)
unfolding join
lines_lem v vs [] six = last_line 6 (line (v ∷ vs)) (v ∷ vs) (
    ap (read_values 6) (sym (append-nil (line (v ∷ vs))))
    ∙ ap (λ n. read_values n (line (v ∷ vs) +++ "")) (sym six)
    ∙ read_values_lem v vs "" refl)
lines_lem v vs (r ∷ rows) six =
    let tail = join "\n" (line (columns r) ∷ map (λ r. line (columns r)) rows) in
    next_line 6 (length rows) (line (v ∷ vs) +++ "\n" +++ tail) tail (v ∷ vs) (
      ap (λ x. read_values 6 (line (v ∷ vs) +++ x)) (newline_append tail)
      ∙ ap (λ n. read_values n (line (v ∷ vs) +++ String.◌∷◌ "\n" tail)) (sym six)
      ∙ read_values_lem v vs (String.◌∷◌ "\n" tail) refl)
    ∙ ap (with_line (v ∷ vs)) (lines_lem r.timestamp _ rows refl)

-- The text that is exported, read as lines of six values, gives back the header and the values of every row,
-- whatever quotes, commas and ends of lines they have.
pub read_csv-export_csv :
    (rows : List LogEntry)
    → read_csv 6 (suc (length rows)) (export_csv rows) ≡ some (header ∷ map columns rows)
unfolding export_csv csv_escape join
read_csv-export_csv rows = lines_lem "timestamp" _ rows refl
