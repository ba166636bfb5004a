-- ===== src/Packages/Deletions.antt =====
-- What the deletions of PackagesPage.tsx ask the server for.
use bv_orchestrator.Packages.Versions.{
  Page, selected_inactive, bulk_delete, all_inactive, delete_all_inactive, delete_versions,
}
use bv_orchestrator.Packages.{Package, later, versions_for}
use bv_orchestrator.Common.Sorting.{All-sort}
use bv_orchestrator.Common.{
  ◌==◌, nat_eq, string_eq, Bool-cases, is_nil, keep, any, has, All, All-weaken, All-any, All-kept,
  is_empty, ℕ, String, ◌≡◌, inl, inr, Bool, true, false, not, ◌&&◌, Option, some, List, [], ◌∷◌,
  map, arith,
}

-- A version of that name that is not active.
abbrev pub is_inactive : String → Package → Bool
is_inactive name p = p.name == name && not p.is_active

-- There is such a version with that id.
abbrev pub is_deletable : String → List Package → Package → Bool
is_deletable name ps p = any (λ (q : Package). is_inactive name q && (q.id == p.id)) ps

abbrev IsDeletable : String → List Package → Package → Type 0
IsDeletable name ps p = not p.is_active ≡ true → is_deletable name ps p ≡ true

versions_for-IsDeletable :
    (name : String) (ps : List Package) → All (IsDeletable name ps) (versions_for (some name) ps)
unfolding versions_for
versions_for-IsDeletable name ps = elim (Bool-cases (is_empty name)) [
  | inl blank ↦ rw blank tt
  | inr named ↦ rw named (
      All-sort later (IsDeletable name ps) (keep (λ (p : Package). p.name == name) ps) (
        All-kept (IsDeletable name ps) (λ (p : Package). p.name == name) ps
          (All-weaken _ (λ (p : Package). p.name == name ≡ true → IsDeletable name ps p)
            (λ p f same inactive. f (ground arith)) ps
            (All-any (λ (p q : Package). is_inactive name q && (q.id == p.id)) ps))))
]

-- what a deletion asks for is deletable
abbrev pub IsDeletableId : String → List Package → ℕ → Type 0
IsDeletableId name ps id = any (λ (q : Package). is_inactive name q && (q.id == id)) ps ≡ true

All-map :
    (name : String) (ps qs : List Package)
    → All (λ (p : Package). is_deletable name ps p ≡ true) qs
    → All (IsDeletableId name ps) (map (λ (p : Package). p.id) qs)
All-map name ps [] h = tt
All-map name ps (q ∷ qs) (d, h) = (d, All-map name ps qs h)

all_inactive-IsDeletable :
    (name : String) (v : Page)
    → All (λ (p : Package). is_deletable name v.packages p ≡ true) (all_inactive name v)
unfolding all_inactive
all_inactive-IsDeletable name v =
    All-kept _ (λ (p : Package). not p.is_active) (versions_for (some name) v.packages)
      (versions_for-IsDeletable name v.packages)

abbrev IsChosen : String → Page → Package → Type 0
IsChosen name v p = (is_deletable name v.packages p ≡ true) × (has p.id v.selected_ids ≡ true)

selected_inactive-IsChosen :
    (name : String) (v : Page) → All (IsChosen name v) (selected_inactive name v)
unfolding selected_inactive
selected_inactive-IsChosen name v =
    All-kept (IsChosen name v) (λ (p : Package). not p.is_active && has p.id v.selected_ids)
      (versions_for (some name) v.packages)
      (All-weaken (IsDeletable name v.packages)
        (λ (p : Package). not p.is_active && has p.id v.selected_ids ≡ true → IsChosen name v p)
        (λ p f both. (f (ground arith), ground arith)) (versions_for (some name) v.packages)
        (versions_for-IsDeletable name v.packages))

-- the id of a version of that name that is not active, and that is selected
abbrev pub IsChosenId : String → Page → ℕ → Type 0
IsChosenId name v id = IsDeletableId name v.packages id × (has id v.selected_ids ≡ true)

All-map_chosen :
    (name : String) (v : Page) (qs : List Package)
    → All (IsChosen name v) qs
    → All (IsChosenId name v) (map (λ (p : Package). p.id) qs)
All-map_chosen name v [] h = tt
All-map_chosen name v (q ∷ qs) (d, h) = (d, All-map_chosen name v qs h)

-- Whatever is selected and whatever the server answers: `bulkDelete` asks the server only to delete versions
-- of the package that are not active and are selected, `deleteAllInactive` only ones that are not active,
-- and neither asks for anything before the user has confirmed it.
pub deletions-AreInactive :
    (answers : ℕ → Option String) (reply : Option (List Package)) (name : String) (v : Page)
    → All (IsChosenId name v) (bulk_delete answers reply true name v).0
      × All (IsDeletableId name v.packages) (delete_all_inactive answers reply true name v).0
      × ((bulk_delete answers reply false name v).0 ≡ [])
      × ((delete_all_inactive answers reply false name v).0 ≡ [])
unfolding bulk_delete delete_all_inactive delete_versions
deletions-AreInactive answers reply name v = (
  elim (Bool-cases (is_nil (selected_inactive name v))) [
    | inl nothing ↦ rw (nothing) tt
    | inr something ↦
        rw (something)
          (All-map_chosen name v (selected_inactive name v) (selected_inactive-IsChosen name v))
  ],
  elim (Bool-cases (is_nil (all_inactive name v))) [
    | inl nothing ↦ rw (nothing) tt
    | inr something ↦
        rw (something)
          (All-map name v.packages (all_inactive name v) (all_inactive-IsDeletable name v))
  ],
  ground arith,
  ground arith,
)
