-- ===== src/Trigger/Laws.antt =====
-- What the errors of a form say about it (`validate` and `buildCron` of TriggerModal.tsx).
use bv_orchestrator.Trigger.{
  Frequency, minute, hourly, daily, weekly, monthly_day, monthly_weekday, advanced, FormValues,
  Weekday,
}
use bv_orchestrator.Trigger.Cron.{Time, at, weekly_cron, monthly_cron, parse_time, cron_of}
use bv_orchestrator.Trigger.Validate.{Errors, put, refuse, validate_frequency, has_no_cron, too_few}
use bv_orchestrator.Common.Number.{Number, is_truthy, below, above, show_number}
use text.Mathlib.TextLemmas.{nil-append, cons-append}
use bv_orchestrator.Common.{
  nat_eq, string_eq, is_some, is_nil, ◌+++◌, is_empty, trim, ℕ, String, ◌≡◌, refl, ◌≢◌, ◌↔◌, Bool,
  true, false, not, ◌||◌, Option, none, some, List, [], ◌∷◌, arith,
}

pub put-ne-nil : (k m : String) (errs : Errors) → put k m errs ≢ []
put-ne-nil k m [] h = cc
put-ne-nil k m ((j, n) ∷ errs) h = ground arith

-- A step of the validation leaves no error exactly when it finds none and there was none.
pub refuse_lem :
    (wrong : Bool) (k m : String) (errs : Errors)
    → (refuse wrong k m errs ≡ []) ↔ ((wrong ≡ false) × (errs ≡ []))
refuse_lem true k m errs = (λ h. absurd (put-ne-nil k m errs h), λ (a, b). cc)
refuse_lem false k m errs = (λ h. (refl, h), λ (a, b). b)

abbrev pub Lies : Number → ℕ → ℕ → Type 0
Lies n a b = (below n a ≡ false) × (above n b ≡ false)

abbrev HasTime : FormValues → Type 0
HasTime form = (t : Time) × (parse_time form.time_of_day ≡ some t)

abbrev pub AtLeastOne : Option Number → Type 0
AtLeastOne o = (n : Number) × (o ≡ some n) × (is_truthy n ≡ true) × (below n 1 ≡ false)

-- What a form must hold for its frequency.
abbrev pub IsScheduled : Frequency → FormValues → Type 0
IsScheduled minute form = below form.minute_every 1 ≡ false
IsScheduled hourly form = (below form.hour_every 1 ≡ false) × Lies form.minute_at 0 59
IsScheduled daily form = HasTime form × AtLeastOne form.daily_every
IsScheduled weekly form = HasTime form × (form.days_of_week ≢ [])
IsScheduled monthly_day form =
    HasTime form × Lies form.day_of_month 1 31 × (below form.months_interval 1 ≡ false)
IsScheduled monthly_weekday form =
    HasTime form × (form.days_of_week ≢ []) × (below form.months_interval 1 ≡ false)
IsScheduled advanced form = is_empty (trim form.cron_expression) ≡ false

HasTime_iff : (o : Option Time) → (not (is_some o) ≡ false) ↔ ((t : Time) × (o ≡ some t))
HasTime_iff none = (λ h. cc, λ (t, e). cc)
HasTime_iff (some t) = (λ h. (t, refl), λ (t, e). refl)

nonempty_iff : (ds : List Weekday) → (is_nil ds ≡ false) ↔ (ds ≢ [])
nonempty_iff [] = (λ h. cc, λ h. absurd (h refl))
nonempty_iff (d ∷ ds) = (λ h e. cc, λ h. refl)

-- A step whose test has a meaning, after steps that have one.
pub refuse_iff :
    {P Q : Type 0} {wrong : Bool} {errs : Errors} (k m : String)
    → (wrong ≡ false) ↔ P
    → (errs ≡ []) ↔ Q
    → (refuse wrong k m errs ≡ []) ↔ (Q × P)
refuse_iff {P} {Q} {wrong} {errs} k m p q = (
  λ h. let (a, b) = (refuse_lem wrong k m errs).0 h in (q.0 b, p.0 a),
  λ (b, a). (refuse_lem wrong k m errs).1 (p.1 a, q.1 b),
)

pub self_iff : {P : Type 0} → P ↔ P
self_iff = (λ p. p, λ p. p)

or_iff : (a b : Bool) → (a || b ≡ false) ↔ ((a ≡ false) × (b ≡ false))
or_iff true b = (λ h. cc, λ (x, y). x)
or_iff false b = (λ h. (refl, h), λ (x, y). y)

too_few_iff : (o : Option Number) → (too_few o ≡ false) ↔ AtLeastOne o
too_few_iff none = (λ h. cc, λ (n, e, r, l). cc)
too_few_iff (some n) = (λ h. (n, refl, ground arith, ground arith), λ (m, e, r, l). ground arith)

pub validate_frequency_lem :
    (f : Frequency) (form : FormValues) (errs : Errors)
    → (validate_frequency f form errs ≡ []) ↔ ((errs ≡ []) × IsScheduled f form)
unfolding validate_frequency
validate_frequency_lem minute form errs = refuse_iff _ _ self_iff self_iff
validate_frequency_lem hourly form errs =
    let o =
      refuse_iff "minuteAt" "0-59 only" (or_iff (below form.minute_at 0) (above form.minute_at 59))
        (refuse_iff {wrong = below form.hour_every 1} {errs = errs} "hourEvery" "Must be >=1"
          self_iff self_iff) in
    (λ h. let ((e, a), b) = o.0 h in (e, (a, b)), λ (e, (a, b)). o.1 ((e, a), b))
validate_frequency_lem daily form errs =
    let o = refuse_iff "dailyEvery" "Must be >=1" (too_few_iff form.daily_every) (
      refuse_iff {errs = errs} "timeOfDay" "Pick a valid time"
        (HasTime_iff (parse_time form.time_of_day)) self_iff) in
    (λ h. let ((e, a), b) = o.0 h in (e, (a, b)), λ (e, (a, b)). o.1 ((e, a), b))
validate_frequency_lem weekly form errs =
    let o = refuse_iff "daysOfWeek" "Pick at least one day" (nonempty_iff form.days_of_week) (
      refuse_iff {errs = errs} "timeOfDay" "Pick a valid time"
        (HasTime_iff (parse_time form.time_of_day)) self_iff) in
    (λ h. let ((e, a), b) = o.0 h in (e, (a, b)), λ (e, (a, b)). o.1 ((e, a), b))
validate_frequency_lem monthly_day form errs =
    let o =
      refuse_iff "monthsInterval" "Must be >=1"
        (self_iff {P = below form.months_interval 1 ≡ false})
        (refuse_iff "dayOfMonth" "1-31 only"
          (or_iff (below form.day_of_month 1) (above form.day_of_month 31))
          (refuse_iff {errs = errs} "timeOfDay" "Pick a valid time"
            (HasTime_iff (parse_time form.time_of_day)) self_iff)) in
    (λ h. let (((e, a), b), c) = o.0 h in (e, (a, b, c)), λ (e, (a, b, c)). o.1 (((e, a), b), c))
validate_frequency_lem monthly_weekday form errs =
    let o =
      refuse_iff "monthsInterval" "Must be >=1"
        (self_iff {P = below form.months_interval 1 ≡ false})
        (refuse_iff "daysOfWeek" "Pick a weekday" (nonempty_iff form.days_of_week) (
          refuse_iff {errs = errs} "timeOfDay" "Pick a valid time"
            (HasTime_iff (parse_time form.time_of_day)) self_iff)) in
    (λ h. let (((e, a), b), c) = o.0 h in (e, (a, b, c)), λ (e, (a, b, c)). o.1 (((e, a), b), c))
validate_frequency_lem advanced form errs = refuse_iff _ _ self_iff self_iff

-- A text that goes on is not empty.
nonempty-append : (a b : String) → is_empty b ≡ false → is_empty (a +++ b) ≡ false
nonempty-append String.[] b h = rw (nil-append b) h
nonempty-append (String.◌∷◌ c a) b h = rw (cons-append c a b) refl

nonempty_left : (a b : String) → is_empty a ≡ false → is_empty (a +++ b) ≡ false
nonempty_left String.[] b h = cc
nonempty_left (String.◌∷◌ c a) b h = rw (cons-append c a b) refl

-- Every cron expression of a time begins with its minute and a blank.
nonempty_at : (t : Time) (b : String) → is_empty (at t +++ b) ≡ false
nonempty_at t b = nonempty_left (at t) b (
    nonempty-append (show_number t.minute) (" " +++ show_number t.hour +++ " ")
      (nonempty_left " " (show_number t.hour +++ " ") refl))

weekly_lem : (ds : List Weekday) (t : Time) → ds ≢ [] → has_no_cron (weekly_cron ds t) ≡ false
weekly_lem [] t h = absurd (h refl)
weekly_lem (d ∷ ds) t h = nonempty_at t _

monthly_lem :
    (form : FormValues) (ds : List Weekday) (t : Time)
    → ds ≢ []
    → has_no_cron (monthly_cron form ds t) ≡ false
monthly_lem form [] t h = absurd (h refl)
monthly_lem form (d ∷ ds) t h = nonempty_at t _

-- A form with what its frequency needs has a cron expression.
pub cron_of_lem :
    (f : Frequency) (form : FormValues) → IsScheduled f form → has_no_cron (cron_of f form) ≡ false
unfolding cron_of
cron_of_lem minute form h =
    rw (h) (nonempty_left "*/" (show_number form.minute_every +++ " * * * *") refl)
cron_of_lem hourly form (h, (a, b)) =
    rw (h, a, b)
      (nonempty-append _ _ (nonempty_left " */" (show_number form.hour_every +++ " * * *") refl))
cron_of_lem daily form ((t, e), d) = rw (e) (nonempty_at t _)
cron_of_lem weekly form ((t, e), d) = rw (e) (weekly_lem form.days_of_week t d)
cron_of_lem monthly_day form ((t, e), (a, b), d) = rw (e, a, b) (nonempty_at t _)
cron_of_lem monthly_weekday form ((t, e), a, d) = rw (e) (monthly_lem form form.days_of_week t a)
cron_of_lem advanced form h = rw (h) h
