-- ===== src/Storage.antt =====
-- localStorage as an association list. An item is a text, or the text `JSON.stringify(v)` for a
-- value `v`, kept as the value: what is read back is `JSON.parse` of it.
use bv_orchestrator.Json.{Json}
use bv_orchestrator.Common.{
  ◌==◌, nat_eq, string_eq, if◌then◌else◌, String, ◌≡◌, refl, Option, none, some, List, [], ◌∷◌,
  eq_iff, arith,
}

pub data Item : Type 0 where
  text : String → Item
  json : Json → Item

abbrev pub Storage : Type 0
Storage = List (String × Item)

-- `localStorage.getItem(k)`
unfoldable pub get_item : String → Storage → Option Item
get_item k [] = none
get_item k ((j, v) ∷ m) = if j == k then some v else get_item k m

-- `localStorage.setItem(k, v)`
pub set_item : String → Item → Storage → Storage
set_item k v [] = (k, v) ∷ []
set_item k v ((j, w) ∷ m) = if j == k then (j, v) ∷ m else (j, w) ∷ set_item k v m

-- `localStorage.removeItem(k)`
pub remove_item : String → Storage → Storage
remove_item k [] = []
remove_item k ((j, w) ∷ m) = if j == k then remove_item k m else (j, w) ∷ remove_item k m

pub get_item-set_item :
    (j k : String) (v : Item) (m : Storage)
    → get_item j (set_item k v m) ≡ (if k == j then some v else get_item j m)
unfolding get_item set_item
get_item-set_item j k v [] = refl
get_item-set_item j k v ((i, w) ∷ m) =
    ground (arith, eq_iff k j, eq_iff i k, eq_iff i j, get_item-set_item j k v m)

pub get_item-remove_item :
    (j k : String) (m : Storage)
    → get_item j (remove_item k m) ≡ (if k == j then none else get_item j m)
unfolding get_item remove_item
get_item-remove_item j k [] = ground arith
get_item-remove_item j k ((i, w) ∷ m) =
    ground (arith, eq_iff k j, eq_iff i k, eq_iff i j, get_item-remove_item j k m)

-- Writing what is there changes nothing.
pub set_item-get_item :
    (k : String) (v : Item) (m : Storage) → get_item k m ≡ some v → set_item k v m ≡ m
unfolding get_item set_item
set_item-get_item k v [] h = cc
set_item-get_item k v ((i, w) ∷ m) h = ground (arith, set_item-get_item k v m)
