-- ===== src/Packages.antt =====
-- PackagesPage.tsx with types/package.ts: the versions of packages, the rows of the table, the
-- versions of one package, the selection, and the deletions. Dates are their `getTime()`.
pub mod Rows
pub mod Grouping
pub mod Versions
pub mod Deletions
pub mod Tests
pub mod Upload
pub mod UploadTests
use bv_orchestrator.Common.Sorting.{sort}
use bv_orchestrator.Common.{
  ltb, ◌==◌, nat_eq, string_eq, if◌then◌else◌, length, keep, has, is_empty, ℕ, String, Bool, Option,
  none, some, List, [], ◌∷◌, ◌++◌, map,
}

pub data PackageType : Type 0 where
  rpa agent : PackageType

pub record Entrypoint : Type 0 where
  pub name : String
  pub is_default : Bool

pub record Package : Type 0 where
  pub id : ℕ
  pub name : String
  pub version : String
  pub type : Option PackageType
  pub is_active : Bool
  pub is_bvpackage : Bool
  pub entrypoints : List Entrypoint
  pub default_entrypoint : Option String
  pub updated_at : ℕ

-- The texts that every JavaScript object has as a property: `byName[name]` is set for them.
abbrev pub inherited : List String
inherited =
    "constructor" ∷ "__proto__" ∷ "toString" ∷ "toLocaleString" ∷ "valueOf" ∷ "hasOwnProperty"
    ∷ "isPrototypeOf" ∷ "propertyIsEnumerable" ∷ "__defineGetter__" ∷ "__defineSetter__"
    ∷ "__lookupGetter__" ∷ "__lookupSetter__" ∷ []

-- An entry of `byName`, which has at least one version.
pub record Group : Type 0 where
  pub name : String
  pub first : Package
  pub rest : List Package

unfoldable pub push : Package → List Group → List Group
push p [] = record { name = p.name; first = p; rest = [] } ∷ []
push p (g ∷ gs) =
    if g.name == p.name then record g { rest = g.rest ++ (p ∷ []) } ∷ gs else g ∷ push p gs

-- `packages.forEach`: `none` when `push` of something that is no array throws
unfoldable pub group : List Package → List Group → Option (List Group)
unfolding push
group [] gs = some gs
group (p ∷ ps) gs = let rest = group ps (push p gs) in if has p.name inherited then none else rest

-- `versions.reduce(…, versions[0])`
unfoldable pub newest : Package → List Package → Package
newest acc [] = acc
newest acc (cur ∷ ps) = newest (if ltb acc.updated_at cur.updated_at then cur else acc) ps

abbrev type_label : Option PackageType → String
type_label (some agent) = "Agent"
type_label _ = "RPA"

-- A row of the table.
pub record Row : Type 0 where
  pub name : String
  pub type_label : String
  pub total_versions : ℕ
  pub updated_at : ℕ

unfoldable pub row : Group → Row
unfolding newest
row g = record {
  name = g.name;
  type_label = type_label g.first.type;
  total_versions = length (g.first ∷ g.rest);
  updated_at = (newest g.first (g.first ∷ g.rest)).updated_at;
}

-- `grouped`; `after` is `localeCompare(a, b) > 0`
abbrev pub rows : (String → String → Bool) → Option (List Group) → Option (List Row)
rows after none = none
rows after (some gs) = some (sort (λ (a b : Row). after a.name b.name) (map row gs))

unfoldable pub grouped : (String → String → Bool) → List Package → Option (List Row)
unfolding group row
grouped after ps = rows after (group ps [])

abbrev pub later : Package → Package → Bool
later a b = ltb a.updated_at b.updated_at

-- `versionsFor`
unfoldable pub versions_for : Option String → List Package → List Package
versions_for none ps = []
versions_for (some name) ps =
    if is_empty name then [] else sort later (keep (λ (p : Package). p.name == name) ps)
