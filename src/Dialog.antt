-- ===== src/Dialog.antt =====
-- DialogProvider.tsx: the one dialog of the program, and the promises that `alert` and `confirm` give
-- to their callers. A promise is known by its number.
pub mod Promises
pub mod Tests
use bv_orchestrator.Common.{
  nat_eq, string_eq, ℕ, ◌+◌, String, Bool, true, false, Option, none, some, List, [], ◌∷◌,
}

pub data Kind : Type 0 where
  alert_kind confirm_kind : Kind

pub record Request : Type 0 where
  pub kind : Kind
  pub title : String
  pub message : String

-- What a promise is resolved with: nothing, or a Boolean.
pub data Answer : Type 0 where
  acknowledged : Answer
  answered : Bool → Answer

pub record Dialog : Type 0 where
  pub request : Option Request
  pub alert_resolver : Option ℕ
  pub confirm_resolver : Option ℕ
  pub next : ℕ
  pub settled : List (ℕ × Answer)

unfoldable pub close : Dialog → Dialog
close d = record d { request = none; alert_resolver = none; confirm_resolver = none }

unfoldable pub alert : String → String → Dialog → Dialog
alert title message d = record d {
  request = some (record { kind = alert_kind; title = title; message = message });
  alert_resolver = some d.next;
  next = d.next + 1;
}

unfoldable pub confirm : String → String → Dialog → Dialog
confirm title message d = record d {
  request = some (record { kind = confirm_kind; title = title; message = message });
  confirm_resolver = some d.next;
  next = d.next + 1;
}

abbrev pub resolve : Option ℕ → Answer → Dialog → Dialog
resolve none a d = d
resolve (some id) a d = record d { settled = (id, a) ∷ d.settled }

-- the test of `handleConfirm`: the alert's resolver comes first
abbrev pub confirming : Option ℕ → Dialog → Dialog
confirming none d = resolve d.confirm_resolver (answered true) d
confirming (some id) d = record d { settled = (id, acknowledged) ∷ d.settled }

unfoldable pub handle_confirm : Dialog → Dialog
unfolding close
handle_confirm d = close (confirming d.alert_resolver d)

unfoldable pub handle_cancel : Dialog → Dialog
unfolding close
handle_cancel d = close (resolve d.confirm_resolver (answered false) d)

-- Escape, and a click beside the dialog
abbrev pub on_close : Option Request → Dialog → Dialog
on_close none d = d
on_close (some r) d = elim r.kind [ confirm_kind ↦ handle_cancel d | alert_kind ↦ handle_confirm d ]

pub data Event : Type 0 where
  alerted confirmed : (title message : String) → Event
  accepted cancelled dismissed : Event

unfoldable pub step : Dialog → Event → Dialog
unfolding alert confirm handle_confirm handle_cancel
step d (alerted title message) = alert title message d
step d (confirmed title message) = confirm title message d
step d accepted = handle_confirm d
step d cancelled = handle_cancel d
step d dismissed = on_close d.request d

unfoldable pub run : Dialog → List Event → Dialog
unfolding step
run d [] = d
run d (e ∷ es) = run (step d e) es
