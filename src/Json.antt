-- ===== src/Json.antt =====
-- JSON values as the program holds them after `JSON.parse`, with the language's property access,
-- truthiness and conversion to text.
pub mod Case
pub mod Keys
pub mod Tests
pub mod Roundtrip
use bv_orchestrator.Common.Int.{pos}
use bv_orchestrator.Common.Number.{Number, int, is_truthy, show_number, to_number}
use bv_orchestrator.Common.{
  ◌==◌, nat_eq, string_eq, if◌then◌else◌, ◌+++◌, is_empty, String, Bool, true, false, not, Option,
  none, some, List, [], ◌∷◌,
}

mutual
  pub data Json : Type 0 where
    null : Json
    bool : Bool → Json
    num : Number → Json
    obj : Props → Json
    arr : Elems → Json
    str : String → Json

  -- the properties of an object, in order
  pub data Props : Type 0 where
    end : Props
    prop : String → Json → Props → Props

  pub data Elems : Type 0 where
    nil : Elems
    cons : Json → Elems → Elems

abbrev pub elems : Elems → List Json
elems nil = []
elems (cons v vs) = v ∷ elems vs

abbrev pub prop_of : String → Props → Option Json
prop_of k end = none
prop_of k (prop j v ps) = if j == k then some v else prop_of k ps

-- `v?.k`; only objects have the properties that the program reads
abbrev pub get : String → Json → Option Json
get k (obj ps) = prop_of k ps
get k _ = none

-- `o?.k`, where `o` itself may be undefined
abbrev pub get? : String → Option Json → Option Json
get? k none = none
get? k (some v) = get k v

-- truthiness
abbrev pub truthy : Json → Bool
truthy null = false
truthy (bool b) = b
truthy (num n) = is_truthy n
truthy (str s) = not (is_empty s)
truthy (arr vs) = true
truthy (obj ps) = true

abbrev pub truthy? : Option Json → Bool
truthy? none = false
truthy? (some v) = truthy v

-- `a || b` of values that may be undefined
abbrev pub or_json : Option Json → Option Json → Option Json
or_json a b = if truthy? a then a else b

-- `v ?? null`, as an optional value: null and undefined are `none`
abbrev pub non_null : Option Json → Option Json
non_null none = none
non_null (some null) = none
non_null (some v) = some v

-- `a ?? b`
abbrev pub coalesce : Option Json → Option Json → Option Json
coalesce a b = elim (non_null a) [ none ↦ b | some v ↦ some v ]

-- `typeof v === 'object'`, null included
abbrev pub is_object : Json → Bool
is_object null = true
is_object (arr vs) = true
is_object (obj ps) = true
is_object _ = false

abbrev bool_text : Bool → String
bool_text true = "true"
bool_text false = "false"

abbrev commas : String → Elems → String → String
commas first nil rest = first
commas first (cons v vs) rest = first +++ "," +++ rest

unfoldable mutual
  -- `String(v)`
  pub to_text : Json → String
  to_text null = "null"
  to_text (bool b) = bool_text b
  to_text (num n) = show_number n
  to_text (str s) = s
  to_text (arr vs) = join_text vs
  to_text (obj ps) = "[object Object]"

  -- an array's elements, joined by commas
  pub join_text : Elems → String
  join_text nil = ""
  join_text (cons v vs) = commas (element_text v) vs (join_text vs)

  -- null is empty inside an array
  pub element_text : Json → String
  element_text null = ""
  element_text (bool b) = bool_text b
  element_text (num n) = show_number n
  element_text (str s) = s
  element_text (arr vs) = join_text vs
  element_text (obj ps) = "[object Object]"

-- `Number(v)`
abbrev pub number_of : Json → Number
number_of (num n) = n
number_of (bool true) = int (pos 1)
number_of (bool false) = int (pos 0)
number_of null = int (pos 0)
number_of v = to_number (to_text v)
