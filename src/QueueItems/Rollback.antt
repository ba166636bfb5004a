-- ===== src/QueueItems/Rollback.antt =====
-- The page's optimistic changes, once the server has answered (QueueItemsPage.tsx).
use bv_orchestrator.QueueItems.{
  new, deleted, QueueItem, Page, Request, update_status, create_item, status_key, without,
  remove_start, remove_finish, target_queue, place_copy, clone_start, created, refused, copy_finish,
  given,
}
use bv_orchestrator.Common.{
  ◌==◌, nat_eq, string_eq, or_default, Bool-cases, every, is_empty, or_text_self, String, ◌≡◌, refl,
  ap, ◌∙◌, ◌≢◌, ◌⊎◌, inl, inr, Bool, true, false, not, Option, none, some, List, [], ◌∷◌, ◌++◌,
  eq_iff, arith,
}

-- A removal keeps to the guard of its menu entry. An item whose status is not `new` is left alone and
-- nothing is sent; any other is taken away before the server answers, it stays away if the server
-- agrees, and if it does not, and nothing else changed the items, they are all as they were.
remove_lem :
    (it : QueueItem) (v : Page) (e : String)
    → ((status_key it ≡ "new")
        × ((remove_start it v).1 ≡ some (update_status it.id deleted))
        × ((remove_finish v.items none (remove_start it v).0).items ≡ without it.id v.items)
        × ((remove_finish v.items (some e) (remove_start it v).0).items ≡ v.items))
      ⊎ ((status_key it ≢ "new")
          × ((remove_start it v).1 ≡ none)
          × ((remove_start it v).0.items ≡ v.items))
unfolding remove_start remove_finish
remove_lem it v e = elim (Bool-cases (status_key it == "new")) [
  | inl y ↦ inl ((eq_iff (status_key it) "new").0 y, rw (y) refl, rw (y) refl, refl)
  | inr n ↦ inr (λ h. absurd cc, rw (n) refl, rw (n) refl)
]

-- A removal that fails brings back an item that another removal took away while it waited.
overlapping_removals :
    (a b : QueueItem) (v : Page) (e : String)
    → status_key b ≡ "new"
    → let (first, sent) = remove_start a v in
      let (second, sent') = remove_start b first in
      let agreed = remove_finish first.items none second in
      (sent' ≡ some (update_status b.id deleted))
      × ((remove_finish v.items (some e) agreed).items ≡ v.items)
unfolding remove_start remove_finish
overlapping_removals a b v e h = (rw (h) refl, refl)

abbrev pub fresh : String → List QueueItem → Bool
fresh id items = every (λ (x : QueueItem). not (x.id == id)) items

without-fresh : (id : String) (xs : List QueueItem) → fresh id xs ≡ true → without id xs ≡ xs
without-fresh id [] h = refl
without-fresh id (x ∷ xs) h = let rest = without-fresh id xs (ground arith) in ground arith

without-middle :
    (id : String) (temp : QueueItem) (pre post : List QueueItem)
    → temp.id ≡ id
    → fresh id pre ≡ true
    → fresh id post ≡ true
    → without id (pre ++ (temp ∷ post)) ≡ pre ++ post
without-middle id temp [] post t h k =
    let same : (temp.id == id) ≡ true = (eq_iff temp.id id).1 t in
    let rest = without-fresh id post k in ground arith
without-middle id temp (x ∷ pre) post t h k =
    let rest = without-middle id temp pre post t (ground arith) k in ground arith

-- The placeholder of a copy, whatever else comes before and after it in the meantime, as long as its
-- id is its own: when the server refuses, it is taken out and all else stays in its order, and when
-- the server agrees, the new item stands at the front in its stead.
copy_finish_lem :
    (done not_done temp_id e : String) (temp it : QueueItem) (pre post : List QueueItem) (v : Page)
    → temp.id ≡ temp_id
    → v.items ≡ pre ++ (temp ∷ post)
    → fresh temp_id pre ≡ true
    → fresh temp_id post ≡ true
    → ((copy_finish done not_done temp_id (refused e) v).items ≡ pre ++ post)
      × ((copy_finish done not_done temp_id (created it) v).items ≡ it ∷ (pre ++ post))
unfolding copy_finish
copy_finish_lem done not_done temp_id e temp it pre post v t h f g =
    let out : without temp_id v.items ≡ pre ++ post =
      ap (without temp_id) h ∙ without-middle temp_id temp pre post t f g in
    (out, ap (λ xs. it ∷ xs) out)

-- What a clone puts in the list and sends, of an item that may be cloned: the placeholder first, new and
-- never tried, and a request for the same queue, priority and payload.
clone_start_lem :
    (queue_id : Option String) (temp_id now : String) (it : QueueItem) (v : Page)
    → status_key it ≡ "new"
    → is_empty it.queue_id ≡ false
    → let (v', sent) = clone_start queue_id temp_id now it v in
      ((temp : QueueItem) × (v'.items ≡ temp ∷ v.items)
        × (temp.id ≡ temp_id)
        × (temp.status ≡ new)
        × (temp.retries ≡ 0)
        × (temp.priority ≡ it.priority))
      × (sent ≡ some (create_item it.queue_id (given it.reference) it.priority it.payload))
unfolding clone_start
clone_start_lem queue_id temp_id now it v h q =
    let temp : QueueItem = record it {
      id = temp_id;
      status = new;
      retries = 0;
      locked_at = none;
      locked_by_robot_id = none;
      created_at = now;
      updated_at = now;
    } in
    let queue : target_queue it queue_id ≡ some it.queue_id =
      rw (or_text_self it.queue_id (or_default queue_id "") q, q) refl in
    let started : clone_start queue_id temp_id now it v
        ≡ place_copy (some it.queue_id) "Queue missing" it temp v =
      rw (h, queue) refl in
    (
      (temp, ap (λ (r : Page × Option Request). r.0.items) started, refl, refl, refl, refl),
      ap (λ (r : Page × Option Request). r.1) started,
    )
