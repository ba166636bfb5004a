-- ===== src/Trigger/Hidden.antt =====
-- The box that selects all triggers, under a search (TriggersPage.tsx).
use bv_orchestrator.Trigger.{Trigger}
use bv_orchestrator.Trigger.Page.{
  TriggersPage, Loaded, filtered, ids, toggle_select_all, all_checked, handle_bulk_delete,
}
use bv_orchestrator.Bulk.{toggle_all}
use bv_orchestrator.Common.{
  ◌==◌, nat_eq, string_eq, length, suc, String, ◌≡◌, refl, ap, ◌∙◌, ◌≢◌, true, false, Option, List,
  [], ◌∷◌, arith,
}

length-ids : (ts : List Trigger) → length (ids ts) ≡ length ts
length-ids [] = refl
length-ids (t ∷ ts) = ap suc (length-ids ts)

select_all :
    (v : TriggersPage)
    → length v.selected ≢ length v.items
    → (toggle_select_all v).selected ≡ ids v.items
unfolding toggle_select_all toggle_all
select_all v h =
    let same = length-ids v.items in
    let other : (length v.selected == length (ids v.items)) ≡ false = ground arith in
    rw (other) refl

same_rows : (v : TriggersPage) → filtered (toggle_select_all v) ≡ filtered v
unfolding filtered toggle_select_all
same_rows v = refl

ids_sent :
    (answer : String → Option String) (after : Loaded) (v : TriggersPage)
    → length v.selected ≢ 0
    → (handle_bulk_delete answer after true v).0 ≡ v.selected
unfolding handle_bulk_delete
ids_sent answer after v h =
    let some_there : (length v.selected == 0) ≡ false = ground arith in rw (some_there) refl

-- While not all triggers are selected, a click on the box of all rows and a confirmed bulk deletion send every
-- trigger there is, whatever is searched for: also those that the search hides. The box looks checked between
-- the two only if the search hides none.
bulk_delete_all :
    (answer : String → Option String) (after : Loaded) (v : TriggersPage)
    → length v.selected ≢ length v.items
    → length v.items ≢ 0
    → ((handle_bulk_delete answer after true (toggle_select_all v)).0 ≡ ids v.items)
      × (all_checked (toggle_select_all v) ≡ true → length (filtered v) ≡ length v.items)
bulk_delete_all answer after v h k =
    let chosen = select_all v h in
    let same = length-ids v.items in
    let many : length (toggle_select_all v).selected ≡ length v.items = ap length chosen ∙ same in
    let rows : length (filtered (toggle_select_all v)) ≡ length (filtered v) =
      ap length (same_rows v) in
    (ids_sent answer after (toggle_select_all v) (ground arith) ∙ chosen, λ checked. ground arith)
