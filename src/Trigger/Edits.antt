-- ===== src/Trigger/Edits.antt =====
-- TriggerModal.tsx: what each input of the form does to it (`TriggerForm`).
use bv_orchestrator.Trigger.{
  TriggerType, time, queue, Weekday, sun, mon, tue, wed, thu, fri, sat, WeekNumber, Frequency,
  advanced, FormValues, whole,
}
use bv_orchestrator.Common.Number.{Number, or_number, to_number}
use bv_orchestrator.Common.{
  Eq, ◌==◌, nat_eq, string_eq, if◌then◌else◌, or_default, get_elem?, keep, has, is_empty, ℕ, String,
  ◌≡◌, refl, sym, ap, ◌∙◌, ◌↔◌, Bool, true, false, not, Option, none, some, List, [], ◌∷◌, ◌++◌,
  arith,
}

abbrev weekday_index : Weekday → ℕ
weekday_index sun = 0
weekday_index mon = 1
weekday_index tue = 2
weekday_index wed = 3
weekday_index thu = 4
weekday_index fri = 5
weekday_index sat = 6

abbrev pub weekdays : List Weekday
weekdays = sun ∷ mon ∷ tue ∷ wed ∷ thu ∷ fri ∷ sat ∷ []

abbrev weekday_at : ℕ → Weekday
weekday_at n = or_default (get_elem? weekdays n) sun

weekday_at-weekday_index : (d : Weekday) → weekday_at (weekday_index d) ≡ d
weekday_at-weekday_index sun = refl
weekday_at-weekday_index mon = refl
weekday_at-weekday_index tue = refl
weekday_at-weekday_index wed = refl
weekday_at-weekday_index thu = refl
weekday_at-weekday_index fri = refl
weekday_at-weekday_index sat = refl

abbrev weekday_beq : Weekday → Weekday → Bool
weekday_beq a b = weekday_index a == weekday_index b

pub weekday_beq_iff : (a b : Weekday) → (weekday_beq a b ≡ true) ↔ (a ≡ b)
weekday_beq_iff a b = (
  λ h.
      let same : weekday_index a ≡ weekday_index b = ground arith in
      sym (weekday_at-weekday_index a) ∙ ap weekday_at same ∙ weekday_at-weekday_index b,
  λ h. let same = ap weekday_index h in ground arith,
)

instance abbrev pub weekday_eq : Eq Weekday
weekday_eq = record { beq = weekday_beq; beq_iff = weekday_beq_iff }

-- `toggleWeekday`, on the list
unfoldable pub toggle : Weekday → List Weekday → List Weekday
toggle day days = if has day days then keep (λ d. not (d == day)) days else days ++ (day ∷ [])

abbrev is_advanced : Frequency → Bool
is_advanced advanced = true
is_advanced _ = false

-- The inputs; the text of a number's input is what the browser gives as `e.target.value`.
pub data Edit : Type 0 where
  name_typed time_typed cron_typed timezone_chosen : String → Edit
  type_chosen : TriggerType → Edit
  process_chosen robot_chosen queue_chosen : String → Edit
  frequency_chosen : Frequency → Edit
  minute_every_typed hour_every_typed minute_at_typed daily_every_typed : String → Edit
  day_typed months_typed batch_typed polling_typed : String → Edit
  weekday_toggled : Weekday → Edit
  weekday_chosen : Option Weekday → Edit
  week_chosen : WeekNumber → Edit

-- `Number(e.target.value) || d`
abbrev pub typed_or : String → ℕ → Number
typed_or s d = or_number (to_number s) (whole d)

abbrev pub chosen_days : Option Weekday → List Weekday
chosen_days none = []
chosen_days (some d) = d ∷ []

unfoldable pub edit : Edit → FormValues → FormValues
unfolding toggle to_number
edit (name_typed s) f = record f { name = s }
edit (time_typed s) f = record f { time_of_day = s }
edit (cron_typed s) f = record f { cron_expression = s }
edit (timezone_chosen s) f = record f { timezone = s }
edit (type_chosen time) f = record f { type = time }
edit (type_chosen queue) f = record f { type = queue; cron_expression = "" }
edit (process_chosen s) f = record f { process_id = to_number s }
edit (robot_chosen s) f = record f { robot_id = if is_empty s then none else some (to_number s) }
edit (queue_chosen s) f = record f { queue_id = to_number s }
edit (frequency_chosen q) f = record f {
  frequency = q;
  cron_expression = if is_advanced q then f.cron_expression else "";
}
edit (minute_every_typed s) f = record f { minute_every = typed_or s 1 }
edit (hour_every_typed s) f = record f { hour_every = typed_or s 1 }
edit (minute_at_typed s) f = record f { minute_at = typed_or s 0 }
edit (daily_every_typed s) f = record f { daily_every = some (typed_or s 1) }
edit (day_typed s) f = record f { day_of_month = typed_or s 1 }
edit (months_typed s) f = record f { months_interval = typed_or s 1 }
edit (batch_typed s) f = record f { batch_size = typed_or s 1 }
edit (polling_typed s) f = record f { polling_interval = typed_or s 30 }
edit (weekday_toggled d) f = record f { days_of_week = toggle d f.days_of_week }
edit (weekday_chosen d) f = record f { days_of_week = chosen_days d }
edit (week_chosen w) f = record f { week_number = w }

unfoldable pub edits : List Edit → FormValues → FormValues
unfolding edit
edits [] f = f
edits (e ∷ es) f = edits es (edit e f)
