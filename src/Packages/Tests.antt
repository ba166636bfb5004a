-- ===== src/Packages/Tests.antt =====
-- The packages' page on concrete packages (PackagesPage.tsx).
use bv_orchestrator.Packages.{Package, agent, Row, grouped, versions_for}
use bv_orchestrator.Packages.Rows.{IsTrue, grouped-IsTrue}
use bv_orchestrator.Packages.Versions.{
  Page, bulk_delete, delete_all_inactive, toggle_select, open_versions,
}
use bv_orchestrator.Packages.Deletions.{IsChosenId, IsDeletableId, deletions-AreInactive}
use bv_orchestrator.Common.{
  ◌==◌, nat_eq, string_eq, if◌then◌else◌, All, ℕ, String, ◌≡◌, refl, Bool, true, false, ◌&&◌,
  Option, none, some, List, [], ◌∷◌, map,
}

page : Unit {0}
unfolding grouped bulk_delete delete_all_inactive toggle_select open_versions
page = tt

abbrev version_of : ℕ → String → Bool → ℕ → Package
version_of id name active date = record {
  id = id;
  name = name;
  version = "1";
  type = some agent;
  is_active = active;
  is_bvpackage = true;
  entrypoints = [];
  default_entrypoint = none;
  updated_at = date;
}

abbrev listed : List Package
listed =
    version_of 1 "b" false 10
    ∷ version_of 2 "a" false 20
    ∷ version_of 3 "b" true 30
    ∷ version_of 4 "b" false 20
    ∷ []

abbrev by_first : String → String → Bool
by_first a b = a == "b" && b == "a"

abbrev table : List Row
table =
    record { name = "a"; type_label = "Agent"; total_versions = 1; updated_at = 20 }
    ∷ record { name = "b"; type_label = "Agent"; total_versions = 3; updated_at = 30 }
    ∷ []

table_test : grouped by_first listed ≡ some table
unfolding page
table_test = refl

versions_test : map (λ (p : Package). p.id) (versions_for (some "b") listed) ≡ 3 ∷ 4 ∷ 1 ∷ []
unfolding page versions_for
versions_test = refl

grouped-IsTrue_example : All (IsTrue listed) table
grouped-IsTrue_example = grouped-IsTrue by_first listed table table_test

abbrev shown : Page
shown = record { packages = listed; versions_modal = some "b"; selected_ids = 1 ∷ []; said = [] }

abbrev replies : ℕ → Option String
replies id = if id == 4 then some "in use" else none

asked_test : (delete_all_inactive replies none true "b" shown).0 ≡ 4 ∷ 1 ∷ []
unfolding page
asked_test = refl

said_test :
    (delete_all_inactive replies none true "b" shown).1.said
    ≡ "Partial delete" ∷ "Delete failed" ∷ []
unfolding page
said_test = refl

deletions-AreInactive_example :
    All (IsChosenId "b" shown) (bulk_delete replies none true "b" shown).0
    × All (IsDeletableId "b" listed) (delete_all_inactive replies none true "b" shown).0
    × ((bulk_delete replies none false "b" shown).0 ≡ [])
    × ((delete_all_inactive replies none false "b" shown).0 ≡ [])
deletions-AreInactive_example = deletions-AreInactive replies none "b" shown
