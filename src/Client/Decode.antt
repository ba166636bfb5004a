-- ===== src/Client/Decode.antt =====
-- How the clients in api/ build a value from the JSON of an answer, with the errors of the language where it
-- is not of the expected form.
use bv_orchestrator.Json.{Json, null, arr, elems, non_null, coalesce, truthy?, number_of}
use bv_orchestrator.Common.Number.{Number, int}
use bv_orchestrator.Common.Int.{pos}
use bv_orchestrator.Common.{
  nat_eq, string_eq, if◌then◌else◌, String, ◌⊎◌, inl, inr, Option, none, some, List, [], ◌∷◌,
}

-- A property of null is an error.
abbrev pub of_object : {A : Type 0} → (Json → String ⊎ A) → Json → String ⊎ A
of_object f null = inl "Cannot read properties of null"
of_object f v = f v

abbrev both : {A : Type 0} → String ⊎ A → String ⊎ List A → String ⊎ List A
both (inl e) rest = inl e
both (inr x) (inl e) = inl e
both (inr x) (inr xs) = inr (x ∷ xs)

-- The map of a function that may throw: the error is that of the first element that has one.
unfoldable pub each : {A : Type 0} → (Json → String ⊎ A) → List Json → String ⊎ List A
each f [] = inr []
each f (v ∷ vs) = let rest = each f vs in both (f v) rest

-- `data.map(f)`
abbrev pub mapped : {A : Type 0} → (Json → String ⊎ A) → Json → String ⊎ List A
mapped f (arr vs) = each f (elems vs)
mapped f null = inl "Cannot read properties of null"
mapped f v = inl "data.map is not a function"

-- `(o.k || []).map(f)`, at the property
abbrev pub mapped_or_none : {A : Type 0} → (Json → String ⊎ A) → Option Json → String ⊎ List A
mapped_or_none f none = inr []
mapped_or_none f (some v) = if truthy? (some v) then mapped f v else inr []

-- `o.k ?? null`
abbrev pub else_null : Option Json → Json
else_null v = elim (non_null v) [ none ↦ null | some w ↦ w ]

-- `Number(o.j ?? o.k ?? 1)`, at the properties
abbrev pub token_version_of : Option Json → Option Json → Number
token_version_of a b = elim (coalesce a b) [ none ↦ int (pos 1) | some v ↦ number_of v ]
