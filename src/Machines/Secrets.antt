-- ===== src/Machines/Secrets.antt =====
-- The keys that MachinesPage.tsx shows.
use bv_orchestrator.Machines.{
  is_runner, MachineMode, dev, runner, Machine, AddWindow, DetailsWindow, MachinesPage, Got, got,
  failed, load, open_add, close_add, open_details, close_details, Creation, submit_window, submit,
  at_window, created, show_created, handle_delete, at_details, regenerate_key, show_regenerated,
}
use bv_orchestrator.Common.{
  ltb, ◌==◌, nat_eq, string_eq, or_default, if_intro, is_some, Bool-cases, All, is_empty, trim, ℕ,
  String, ◌≡◌, refl, inl, inr, Bool, true, not, ◌||◌, Option, none, some, List, [], ◌∷◌,
}

pub data MachineEvent : Type 0 where
  add_opened add_closed submitted details_closed : MachineEvent
  name_typed : String → MachineEvent
  mode_chosen : MachineMode → MachineEvent
  creation_answered : Creation → Got Machine → Got (List Machine) → MachineEvent
  details_opened : Got Machine → MachineEvent
  deleted :
      (closes : Bool) (answer : ℕ → Option String) (after : Got (List Machine)) (confirmed : Bool)
      → Machine
      → MachineEvent
  regenerated : (number : ℕ) → Got String → (confirmed : Bool) → Machine → MachineEvent
  reloaded : Got (List Machine) → MachineEvent

abbrev pub edit_window : (AddWindow → AddWindow) → Option AddWindow → Option AddWindow
edit_window change none = none
edit_window change (some w) = some (change w)

unfoldable pub step : MachinesPage → MachineEvent → MachinesPage
unfolding load open_add close_add open_details close_details submit created handle_delete
    regenerate_key
step v add_opened = open_add v
step v add_closed = close_add v
step v submitted = (submit v).0
step v details_closed = close_details v
step v (name_typed s) = record v {
  add = edit_window (λ (w : AddWindow). record w { name = s }) v.add;
}
step v (mode_chosen m) = record v {
  add = edit_window (λ (w : AddWindow). record w { mode = m }) v.add;
}
step v (creation_answered c answer after) = created c answer after v
step v (details_opened answer) = open_details answer v
step v (deleted closes answer after confirmed m) =
    (handle_delete closes answer after confirmed m v).1
step v (regenerated number answer confirmed m) = (regenerate_key number answer confirmed m v).1
step v (reloaded answer) = load answer v

unfoldable pub run : MachinesPage → List MachineEvent → MachinesPage
unfolding step
run v [] = v
run v (e ∷ es) = run (step v e) es

module _ (p : String → Bool) where
  abbrev pub holds : Option String → Bool
  holds none = true
  holds (some k) = p k

  abbrev pub holds_at_add : Option AddWindow → Bool
  holds_at_add none = true
  holds_at_add (some w) = holds w.created_key

  abbrev pub holds_at_details : Option DetailsWindow → Bool
  holds_at_details none = true
  holds_at_details (some w) = holds w.regenerated_key

  -- It holds of the keys on the screen.
  abbrev pub Shows : MachinesPage → Type 0
  Shows v = (holds_at_add v.add ≡ true) × (holds_at_details v.details ≡ true)

  -- It holds of the key that the server sends, where it sends one.
  abbrev pub Sends : MachineEvent → Type 0
  Sends (creation_answered c (got m) after) = p (or_default m.machine_key "") ≡ true
  Sends (regenerated number (got key) confirmed m) = p key ≡ true
  Sends _ = Unit

  edit_holds :
      (change : AddWindow → AddWindow)
      → ((w : AddWindow) → (change w).created_key ≡ w.created_key)
      → (o : Option AddWindow) → holds_at_add o ≡ true
      → holds_at_add (edit_window change o) ≡ true
  edit_holds change same none h = refl
  edit_holds change same (some w) h = rw (same w) h

  at_window-holds :
      (n : ℕ) (change : AddWindow → AddWindow)
      → ((w : AddWindow) → holds w.created_key ≡ true → holds (change w).created_key ≡ true)
      → (o : Option AddWindow) → holds_at_add o ≡ true
      → holds_at_add (at_window n change o) ≡ true
  at_window-holds n change keeps none h = refl
  at_window-holds n change keeps (some w) h = elim (Bool-cases (w.number == n)) [
    | inl this ↦ rw (this) (keeps w h)
    | inr other ↦ rw (other) h
  ]

  at_details_holds :
      (n : ℕ) (key : String) (o : Option DetailsWindow)
      → p key ≡ true
      → holds_at_details o ≡ true
      → holds_at_details (at_details n key o) ≡ true
  at_details_holds n key none k h = refl
  at_details_holds n key (some w) k h = elim (Bool-cases (w.number == n)) [
    | inl this ↦ rw (this) k
    | inr other ↦ rw (other) h
  ]

  load-Shows : (l : Got (List Machine)) (v : MachinesPage) → Shows v → Shows (load l v)
  unfolding load
  load-Shows (got ms) v h = h
  load-Shows (failed e) v h = h

  submit_Shows :
      (o : Option AddWindow) (v : MachinesPage)
      → holds_at_add o ≡ true
      → Shows v
      → Shows (submit_window o v).0
  submit_Shows none v k h = h
  submit_Shows (some w) v k h = elim (Bool-cases (is_empty (trim w.name) || w.saving)) [
    | inl off ↦ rw (off) h
    | inr on ↦ rw (on) (k, h.1)
  ]

  show_created-Shows :
      (mode : MachineMode) (n : ℕ) (m : Machine) (v : MachinesPage)
      → p (or_default m.machine_key "") ≡ true
      → Shows v
      → Shows (show_created mode n m v)
  unfolding show_created close_add
  show_created-Shows dev n m v k (a, d) = (refl, d)
  show_created-Shows runner n m v k (a, d) = (at_window-holds n _ (λ w h. k) v.add a, d)

  created_Shows :
      (c : Creation) (answer : Got Machine) (after : Got (List Machine)) (v : MachinesPage)
      → Sends (creation_answered c answer after)
      → Shows v
      → Shows (created c answer after v)
  unfolding created
  created_Shows c (failed e) after v k (a, d) = (at_window-holds c.number _ (λ w h. h) v.add a, d)
  created_Shows c (got m) after v k h =
      show_created-Shows c.mode c.number m (load after v) k (load-Shows after v h)

  regenerate_Shows :
      (n : ℕ) (answer : Got String) (confirmed : Bool) (m : Machine) (v : MachinesPage)
      → Sends (regenerated n answer confirmed m)
      → Shows v
      → Shows (regenerate_key n answer confirmed m v).1
  unfolding regenerate_key show_regenerated
  regenerate_Shows n answer confirmed m v k h =
      elim (Bool-cases (not (is_runner m.mode) || not confirmed)) [
        | inl off ↦ rw (off) h
        | inr on ↦ rw (on) (go answer k)
      ]
    where
      go : (a : Got String) → Sends (regenerated n a confirmed m) → Shows (show_regenerated n a v)
      go (got key) k' = (h.0, at_details_holds n key v.details k' h.1)
      go (failed e) k' = h

  delete_Shows :
      (closes : Bool) (answer : ℕ → Option String) (after : Got (List Machine)) (confirmed : Bool)
      (m : Machine) (v : MachinesPage)
      → Shows v
      → Shows (handle_delete closes answer after confirmed m v).1
  unfolding handle_delete close_details
  delete_Shows closes answer after confirmed m v h =
      elim (Bool-cases (ltb 0 m.robot_count || not confirmed)) [
        | inl off ↦ rw (off) h
        | inr on ↦ elim (Bool-cases (is_some (answer m.id))) [
          | inl bad ↦ rw (on, bad) h
          | inr good ↦ rw (on, good) (load-Shows after _ (if_intro Shows closes (h.0, refl) h))
        ]
      ]

  step-Shows : (e : MachineEvent) (v : MachinesPage) → Sends e → Shows v → Shows (step v e)
  unfolding step open_add close_add open_details close_details submit
  step-Shows add_opened v k (a, d) = (refl, d)
  step-Shows add_closed v k (a, d) = (refl, d)
  step-Shows submitted v k h = submit_Shows v.add v h.0 h
  step-Shows details_closed v k (a, d) = (a, refl)
  step-Shows (name_typed s) v k (a, d) = (edit_holds _ (λ w. refl) v.add a, d)
  step-Shows (mode_chosen m) v k (a, d) = (edit_holds _ (λ w. refl) v.add a, d)
  step-Shows (creation_answered c answer after) v k h = created_Shows c answer after v k h
  step-Shows (details_opened (got m)) v k (a, d) = (a, refl)
  step-Shows (details_opened (failed e)) v k h = h
  step-Shows (deleted closes answer after confirmed m) v k h =
      delete_Shows closes answer after confirmed m v h
  step-Shows (regenerated n answer confirmed m) v k h = regenerate_Shows n answer confirmed m v k h
  step-Shows (reloaded answer) v k h = load-Shows answer v h

  -- Whatever holds of the keys on the screen and of every key that the server sends, for a new machine or for a
  -- regeneration, holds of the keys on the screen after any sequence of events: no key comes from elsewhere.
  run-Shows :
      (es : List MachineEvent) (v : MachinesPage) → All Sends es → Shows v → Shows (run v es)
  unfolding run
  run-Shows [] v ks h = h
  run-Shows (e ∷ es) v (k, ks) h = run-Shows es (step v e) ks (step-Shows e v k h)
