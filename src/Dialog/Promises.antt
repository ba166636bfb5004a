-- ===== src/Dialog/Promises.antt =====
-- Which promises of the dialog are settled (DialogProvider.tsx).
use bv_orchestrator.Dialog.{
  alert_kind, confirm_kind, Request, Answer, acknowledged, answered, Dialog, close, alert, confirm,
  resolve, confirming, handle_confirm, handle_cancel, on_close, Event, alerted, confirmed, accepted,
  cancelled, dismissed, step, run,
}
use bv_orchestrator.Common.{
  ◌==◌, nat_eq, string_eq, or_default, Bool-cases, ℕ, ◌+◌, ◌<◌, String, ◌≡◌, refl, ap, ◌≢◌, inl,
  inr, Bool, true, false, ◌||◌, Option, none, some, List, [], ◌∷◌, arith,
}

-- No dialog is open, and nobody waits.
abbrev pub idle : ℕ → List (ℕ × Answer) → Dialog
idle next settled = record {
  request = none;
  alert_resolver = none;
  confirm_resolver = none;
  next = next;
  settled = settled;
}

-- Asked while no dialog is open, a dialog leaves none open when it is answered, and the promise of its
-- caller is settled with the answer: an alert is acknowledged by its button and by dismissing it, a
-- confirmation is true by its button, and false by the other one and by dismissing it.
answers_lem :
    (next : ℕ) (settled : List (ℕ × Answer)) (title message : String)
    → (run (idle next settled) (alerted title message ∷ accepted ∷ [])
        ≡ idle (next + 1) ((next, acknowledged) ∷ settled))
      × (run (idle next settled) (alerted title message ∷ dismissed ∷ [])
          ≡ idle (next + 1) ((next, acknowledged) ∷ settled))
      × (run (idle next settled) (confirmed title message ∷ accepted ∷ [])
          ≡ idle (next + 1) ((next, answered true) ∷ settled))
      × (run (idle next settled) (confirmed title message ∷ cancelled ∷ [])
          ≡ idle (next + 1) ((next, answered false) ∷ settled))
      × (run (idle next settled) (confirmed title message ∷ dismissed ∷ [])
          ≡ idle (next + 1) ((next, answered false) ∷ settled))
unfolding run alert confirm handle_confirm handle_cancel
answers_lem next settled title message = (refl, refl, refl, refl, refl)

abbrev pub is_settled : ℕ → List (ℕ × Answer) → Bool
is_settled id [] = false
is_settled id ((j, a) ∷ rest) = j == id || is_settled id rest

-- A promise that was given out and that nobody holds the resolver of.
abbrev pub IsLost : ℕ → Dialog → Type 0
IsLost id d =
    (id < d.next)
    × (d.alert_resolver ≢ some id)
    × (d.confirm_resolver ≢ some id)
    × (is_settled id d.settled ≡ false)

differ : (j id : ℕ) → some j ≢ some id → (j == id) ≡ false
differ j id h = elim (Bool-cases (j == id)) [
  | inl y ↦ (let e : j ≡ id = ground arith in absurd (h (ap some e)))
  | inr n ↦ n
]

none-ne-some : (id : ℕ) → none ≢ some id
none-ne-some id e = cc

resolve-IsLost :
    (id : ℕ) (o : Option ℕ) (a : Answer) (d : Dialog)
    → IsLost id d
    → o ≢ some id
    → IsLost id (close (resolve o a d))
unfolding close
resolve-IsLost id none a d (l, x, y, s) h = (l, none-ne-some id, none-ne-some id, s)
resolve-IsLost id (some j) a d (l, x, y, s) h =
    (l, none-ne-some id, none-ne-some id, rw (differ j id h) s)

confirming-IsLost :
    (id : ℕ) (o : Option ℕ) (d : Dialog)
    → IsLost id d
    → o ≢ some id
    → IsLost id (close (confirming o d))
confirming-IsLost id none d (l, x, y, s) h =
    resolve-IsLost id d.confirm_resolver (answered true) d (l, x, y, s) y
confirming-IsLost id (some j) d lost h = resolve-IsLost id (some j) acknowledged d lost h

on_close-IsLost :
    (id : ℕ) (o : Option Request) (d : Dialog) → IsLost id d → IsLost id (on_close o d)
unfolding handle_confirm handle_cancel
on_close-IsLost id none d h = h
on_close-IsLost id (some r) d (l, x, y, s) =
    elim r.kind
      as (λ k.
        IsLost id (elim k [ confirm_kind ↦ handle_cancel d | alert_kind ↦ handle_confirm d ])) [
          | confirm_kind ↦ resolve-IsLost id d.confirm_resolver (answered false) d (l, x, y, s) y
          | alert_kind ↦ confirming-IsLost id d.alert_resolver d (l, x, y, s) x
        ]

fresh-ne : (id next : ℕ) → id < next → some next ≢ some id
fresh-ne id next l e = let same : next ≡ id = ap (λ o. or_default o 0) e in omega (arith, l, same)

step-IsLost : (id : ℕ) (d : Dialog) (e : Event) → IsLost id d → IsLost id (step d e)
unfolding step alert confirm handle_confirm handle_cancel
step-IsLost id d (alerted title message) (l, x, y, s) =
    (omega (arith, l), fresh-ne id d.next l, y, s)
step-IsLost id d (confirmed title message) (l, x, y, s) =
    (omega (arith, l), x, fresh-ne id d.next l, s)
step-IsLost id d accepted (l, x, y, s) = confirming-IsLost id d.alert_resolver d (l, x, y, s) x
step-IsLost id d cancelled (l, x, y, s) =
    resolve-IsLost id d.confirm_resolver (answered false) d (l, x, y, s) y
step-IsLost id d dismissed h = on_close-IsLost id d.request d h

run-IsLost : (id : ℕ) (d : Dialog) (es : List Event) → IsLost id d → IsLost id (run d es)
unfolding run
run-IsLost id d [] h = h
run-IsLost id d (e ∷ es) h = run-IsLost id (step d e) es (step-IsLost id d e h)

-- A confirmation that is asked while an alert is open is lost: its button acknowledges the alert, number
-- `next`, and closes the dialog with nobody waiting, and the promise of the confirmation, number `next + 1`, is
-- never settled, whatever follows.
pub confirm_over_alert :
    (next : ℕ) (settled : List (ℕ × Answer)) (t m u n : String) (es : List Event)
    → is_settled (next + 1) settled ≡ false
    → (run (idle next settled) (alerted t m ∷ confirmed u n ∷ accepted ∷ [])
        ≡ idle (next + 1 + 1) ((next, acknowledged) ∷ settled))
      × (is_settled
            (next + 1)
            (run (idle next settled) (alerted t m ∷ confirmed u n ∷ accepted ∷ es)).settled
          ≡ false)
unfolding run alert confirm handle_confirm close
confirm_over_alert next settled t m u n es h = (
  refl,
  (run-IsLost (next + 1) (idle (next + 1 + 1) ((next, acknowledged) ∷ settled)) es
      (omega arith, none-ne-some _, none-ne-some _, ground arith)).3,
)
