-- ===== src/Packages/Versions.antt =====
-- PackagesPage.tsx: the window with the versions of one package, and the deletions. `answers` is what
-- the server says to the deletion of an id: the message of its error, if any.
use bv_orchestrator.Packages.{Package, versions_for}
use bv_orchestrator.Common.{
  ◌==◌, nat_eq, string_eq, if◌then◌else◌, is_some, length, is_nil, keep, any, has, ◌+++◌, show_nat,
  ℕ, String, Bool, not, ◌&&◌, Option, none, some, List, [], ◌∷◌, ◌++◌, map,
}

-- The state of the page that the window shares; `said` are the titles of its toasts and alerts, the
-- newest first.
pub record Page : Type 0 where
  pub packages : List Package
  pub versions_modal : Option String
  pub selected_ids : List ℕ
  pub said : List String

abbrev pub say : String → Page → Page
say title v = record v { said = title ∷ v.said }

unfoldable pub open_versions : String → Page → Page
open_versions name v = record v { versions_modal = some name; selected_ids = [] }

unfoldable pub close_versions : Page → Page
close_versions v = record v { versions_modal = none; selected_ids = [] }

-- `toggleSelect`
unfoldable pub toggle_select : ℕ → Bool → Page → Page
toggle_select id active v = if active then v else record v {
  selected_ids =
      if has id v.selected_ids
      then keep (λ x. not (x == id)) v.selected_ids
      else v.selected_ids ++ (id ∷ []);
}

-- The list of packages that the server has next; it keeps the old one when it does not answer.
abbrev pub load : Option (List Package) → Page → Page
load none v = v
load (some ps) v = record v { packages = ps }

-- What a deletion does: the ids that the server is asked to delete, in order, and the page at its end.
abbrev pub Done : Type 0
Done = List ℕ × Page

-- `deleteSingle`; `confirmed` is the answer of the user.
unfoldable pub delete_single :
    (ℕ → Option String) → Option (List Package) → Bool → Package → Bool → Page → Done
delete_single answers reply confirmed p active v =
    if active
    then ([], say "Active version" v)
    else if not confirmed
    then ([], v)
    else if is_some (answers p.id)
    then (p.id ∷ [], say "Delete failed" v)
    else (p.id ∷ [], say "Version deleted" (load reply v))

-- The loop: an alert for each id that is not deleted.
abbrev pub delete_in_turn : (ℕ → Option String) → List Package → Page → Page
delete_in_turn answers [] v = v
delete_in_turn answers (p ∷ ps) v =
    delete_in_turn answers ps (if is_some (answers p.id) then say "Delete failed" v else v)

abbrev pub had_error : (ℕ → Option String) → List Package → Bool
had_error answers ps = any (λ (p : Package). is_some (answers p.id)) ps

-- The rest of both bulk deletions, once the user has confirmed.
unfoldable pub delete_versions :
    (ℕ → Option String) → Option (List Package) → List Package → Page → Done
unfolding show_nat
delete_versions answers reply inactive v =
    let loaded = load reply (record (delete_in_turn answers inactive v) { selected_ids = [] }) in
    (
      map (λ (p : Package). p.id) inactive,
      if had_error answers inactive
          then say "Partial delete" loaded
          else say ("Deleted " +++ show_nat (length inactive) +++ " version(s)") loaded,
    )

-- `inactive` in `bulkDelete`
unfoldable pub selected_inactive : String → Page → List Package
unfolding versions_for
selected_inactive name v =
    keep (λ (p : Package). not p.is_active && has p.id v.selected_ids)
      (versions_for (some name) v.packages)

unfoldable pub bulk_delete :
    (ℕ → Option String) → Option (List Package) → Bool → String → Page → Done
unfolding selected_inactive delete_versions
bulk_delete answers reply confirmed name v =
    if is_nil (selected_inactive name v)
    then ([], say (if is_nil v.selected_ids then "No selection" else "Active versions") v)
    else if not confirmed
    then ([], v)
    else delete_versions answers reply (selected_inactive name v) v

-- `inactive` in `deleteAllInactive`
unfoldable pub all_inactive : String → Page → List Package
unfolding versions_for
all_inactive name v = keep (λ (p : Package). not p.is_active) (versions_for (some name) v.packages)

unfoldable pub delete_all_inactive :
    (ℕ → Option String) → Option (List Package) → Bool → String → Page → Done
unfolding all_inactive delete_versions
delete_all_inactive answers reply confirmed name v =
    if is_nil (all_inactive name v)
    then ([], say "No inactive versions" v)
    else if not confirmed
    then ([], v)
    else delete_versions answers reply (all_inactive name v) v
