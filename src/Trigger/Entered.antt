-- ===== src/Trigger/Entered.antt =====
-- What stays true of a form while it is edited (`TriggerForm` of TriggerModal.tsx).
use bv_orchestrator.Trigger.{
  TriggerType, time, queue, Weekday, FormValues, whole, Trigger, form_from_trigger, base_form,
  make_empty_form, number_or, form_of,
}
use bv_orchestrator.Trigger.Edits.{
  Edit, edit, edits, toggle, chosen_days, weekday_eq, typed_or, name_typed, time_typed, cron_typed,
  timezone_chosen, type_chosen, process_chosen, robot_chosen, queue_chosen, frequency_chosen,
  minute_every_typed, hour_every_typed, minute_at_typed, daily_every_typed, day_typed, months_typed,
  batch_typed, polling_typed, weekday_toggled, weekday_chosen, week_chosen,
}
use bv_orchestrator.Common.Number.{Number, is_truthy, or_number, to_number}
use bv_orchestrator.Common.Distinct.{IsDistinct, keep-IsDistinct, append-IsDistinct}
use bv_orchestrator.Common.{
  ◌==◌, nat_eq, string_eq, Bool-cases, has, ℕ, String, ◌≡◌, refl, inl, inr, true, not, Option, none,
  some, List, [], ◌∷◌,
}

-- The counts of a form are neither 0 nor NaN, and no weekday is there twice.
abbrev pub IsEntered : FormValues → Type 0
IsEntered f =
    (is_truthy f.minute_every ≡ true)
    × (is_truthy f.hour_every ≡ true)
    × ((n : Number) × (f.daily_every ≡ some n) × (is_truthy n ≡ true))
    × (is_truthy f.day_of_month ≡ true)
    × (is_truthy f.months_interval ≡ true)
    × (is_truthy f.batch_size ≡ true)
    × (is_truthy f.polling_interval ≡ true)
    × IsDistinct f.days_of_week

is_truthy-or_number : (n d : Number) → is_truthy d ≡ true → is_truthy (or_number n d) ≡ true
is_truthy-or_number n d h = elim (Bool-cases (is_truthy n)) [ inl y ↦ rw (y) y | inr m ↦ rw (m) h ]

toggle-IsDistinct : (day : Weekday) (ds : List Weekday) → IsDistinct ds → IsDistinct (toggle day ds)
unfolding toggle
toggle-IsDistinct day ds h = elim (Bool-cases (has day ds)) [
  | inl y ↦ rw (y) (keep-IsDistinct (λ d. not (d == day)) ds h)
  | inr m ↦ rw (m) (append-IsDistinct day ds m h)
]

chosen_days-IsDistinct : (d : Option Weekday) → IsDistinct (chosen_days d)
chosen_days-IsDistinct none = tt
chosen_days-IsDistinct (some d) = (refl, tt)

typed_lem : (s : String) (d : ℕ) → is_truthy (whole d) ≡ true → is_truthy (typed_or s d) ≡ true
typed_lem s d h = is_truthy-or_number (to_number s) (whole d) h

edit-IsEntered : (e : Edit) (f : FormValues) → IsEntered f → IsEntered (edit e f)
unfolding edit
edit-IsEntered (name_typed s) f h = h
edit-IsEntered (time_typed s) f h = h
edit-IsEntered (cron_typed s) f h = h
edit-IsEntered (timezone_chosen s) f h = h
edit-IsEntered (type_chosen time) f h = h
edit-IsEntered (type_chosen queue) f h = h
edit-IsEntered (process_chosen s) f h = h
edit-IsEntered (robot_chosen s) f h = h
edit-IsEntered (queue_chosen s) f h = h
edit-IsEntered (frequency_chosen q) f h = h
edit-IsEntered (week_chosen w) f h = h
edit-IsEntered (minute_at_typed s) f h = h
edit-IsEntered (minute_every_typed s) f (a, b, c, d, e, g, i, k) =
    (typed_lem s 1 refl, b, c, d, e, g, i, k)
edit-IsEntered (hour_every_typed s) f (a, b, c, d, e, g, i, k) =
    (a, typed_lem s 1 refl, c, d, e, g, i, k)
edit-IsEntered (daily_every_typed s) f (a, b, c, d, e, g, i, k) =
    (a, b, (typed_or s 1, refl, typed_lem s 1 refl), d, e, g, i, k)
edit-IsEntered (day_typed s) f (a, b, c, d, e, g, i, k) = (a, b, c, typed_lem s 1 refl, e, g, i, k)
edit-IsEntered (months_typed s) f (a, b, c, d, e, g, i, k) =
    (a, b, c, d, typed_lem s 1 refl, g, i, k)
edit-IsEntered (batch_typed s) f (a, b, c, d, e, g, i, k) =
    (a, b, c, d, e, typed_lem s 1 refl, i, k)
edit-IsEntered (polling_typed s) f (a, b, c, d, e, g, i, k) =
    (a, b, c, d, e, g, typed_lem s 30 refl, k)
edit-IsEntered (weekday_toggled x) f (a, b, c, d, e, g, i, k) =
    (a, b, c, d, e, g, i, toggle-IsDistinct x f.days_of_week k)
edit-IsEntered (weekday_chosen x) f (a, b, c, d, e, g, i, k) =
    (a, b, c, d, e, g, i, chosen_days-IsDistinct x)

edits_from-IsEntered : (es : List Edit) (f : FormValues) → IsEntered f → IsEntered (edits es f)
unfolding edits
edits_from-IsEntered [] f h = h
edits_from-IsEntered (e ∷ es) f h = edits_from-IsEntered es (edit e f) (edit-IsEntered e f h)

base-IsEntered : IsEntered base_form
base-IsEntered = (refl, refl, (whole 1, refl, refl), refl, refl, refl, refl, (refl, tt))

is_truthy-number_or :
    (o : Option Number) (d : Number) → is_truthy d ≡ true → is_truthy (number_or o d) ≡ true
is_truthy-number_or none d h = h
is_truthy-number_or (some n) d h = is_truthy-or_number n d h

form_of-IsEntered : (type : TriggerType) (t : Trigger) → IsEntered (form_of type t)
form_of-IsEntered time t = base-IsEntered
form_of-IsEntered queue t = (
  refl,
  refl,
  (whole 1, refl, refl),
  refl,
  refl,
  is_truthy-number_or t.batch_size (whole 1) refl,
  is_truthy-number_or t.polling_interval (whole 30) refl,
  (refl, tt),
)

-- Whatever is typed, chosen and toggled in a form that began empty or with a trigger, its counts are
-- never 0 and never NaN, and no weekday is in it twice.
pub edits-IsEntered :
    (es : List Edit) (process_id : Option Number) (t : Trigger)
    → IsEntered (edits es (make_empty_form process_id)) × IsEntered (edits es (form_from_trigger t))
unfolding make_empty_form form_from_trigger
edits-IsEntered es process_id t = (
  edits_from-IsEntered es (make_empty_form process_id) base-IsEntered,
  edits_from-IsEntered es (form_from_trigger t) (form_of-IsEntered t.type t),
)
