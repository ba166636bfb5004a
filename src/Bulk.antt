-- ===== src/Bulk.antt =====
-- What the lists of ProcessesPage.tsx, QueuesPage.tsx and QueueItemsPage.tsx share: a selection of ids, and
-- the loop of a bulk deletion with its report. `answer` is the server's to the deletion of an id: the
-- error, if any.
pub mod Refines
pub mod Tests
use bv_orchestrator.Common.{
  Eq, ◌==◌, nat_eq, string_eq, if◌then◌else◌, is_some, Option-cases, length, keep, has, ◌+++◌,
  or_text, join, show_nat, ℕ, ◌+◌, String, ◌≡◌, refl, inl, inr, not, Option, none, some, List, [],
  ◌∷◌, ◌++◌, arith,
}

module _ {A : Type 0} where
  -- `prev.includes(id) ? prev.filter(x => x !== id) : [...prev, id]`
  unfoldable pub toggle_id : ⦃e : Eq A⦄ → A → List A → List A
  toggle_id id selected =
      if has id selected then keep (λ x. not (x == id)) selected else selected ++ (id ∷ [])

  -- `toggleSelectAll`, at the ids of the list
  unfoldable pub toggle_all : List A → List A → List A
  toggle_all ids selected = if length selected == length ids then [] else ids

  -- One turn of the loop, on top of the others.
  abbrev pub counted : (A → String) → Option String → A → ℕ × List String → ℕ × List String
  counted describe none id (count, errors) = (count + 1, errors)
  counted describe (some e) id (count, errors) =
      (count, ("Failed to delete " +++ describe id +++ ": " +++ or_text e "Unknown error") ∷ errors)

  -- The loop: the count of successes, and the messages of the errors.
  unfoldable pub delete_each : (A → String) → (A → Option String) → List A → ℕ × List String
  delete_each describe answer [] = (0, [])
  delete_each describe answer (id ∷ ids) =
      counted describe (answer id) id (delete_each describe answer ids)

  -- the ids that the server deletes
  abbrev pub deleted_ids : (A → Option String) → List A → List A
  deleted_ids answer ids = keep (λ id. not (is_some (answer id))) ids

  pub delete_each_lem :
      (describe : A → String) (answer : A → Option String) (ids : List A)
      → ((delete_each describe answer ids).0 ≡ length (deleted_ids answer ids))
        × ((delete_each describe answer ids).0 + length (delete_each describe answer ids).1
            ≡ length ids)
  unfolding delete_each
  delete_each_lem describe answer [] = (refl, refl)
  delete_each_lem describe answer (id ∷ ids) =
      let (count, all) = delete_each_lem describe answer ids in
      elim (Option-cases (answer id)) [
        | inl e ↦ rw (e) (omega (arith, count), omega (arith, all))
        | inr (m, e) ↦ rw (e) (count, omega (arith, all))
      ]

-- What is said at the end, with its message
unfoldable pub report : String → ℕ → List String → String × String
unfolding show_nat join
report noun count [] = ("Deleted " +++ show_nat count +++ " " +++ noun +++ "(s)", "")
report noun count (e ∷ errors) = (
  "Partial delete",
  "Deleted " +++ show_nat count +++ " " +++ noun +++ "(s).\n\nErrors:\n" +++ join "\n" (e ∷ errors),
)
