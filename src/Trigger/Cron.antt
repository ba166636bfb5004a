-- ===== src/Trigger/Cron.antt =====
-- TriggerModal.tsx: `parseTime` and `buildCron`, the cron expression of a form.
use bv_orchestrator.Trigger.{
  TriggerType, time, queue, Weekday, sun, mon, tue, wed, thu, fri, sat, WeekNumber, first, second,
  third, fourth, last, Frequency, minute, hourly, daily, weekly, monthly_day, monthly_weekday,
  advanced, FormValues, whole,
}
use bv_orchestrator.Common.Number.{
  Number, nan, is_truthy, is_finite, below, above, show_number, to_number,
}
use bv_orchestrator.Common.{
  nat_eq, string_eq, if◌then◌else◌, get_elem?, ◌+++◌, is_empty, trim, split, join, ℕ, String, Bool,
  true, false, not, ◌&&◌, ◌||◌, Option, none, some, List, [], ◌∷◌, map,
}

pub record Time : Type 0 where
  pub hour : Number
  pub minute : Number

-- A missing part is undefined, which `Number.isFinite` refuses as it does NaN.
abbrev pub number_at : List String → ℕ → Number
number_at parts i = elim (get_elem? parts i) [ none ↦ nan | some s ↦ to_number s ]

abbrev pub time_of : Number → Number → Option Time
time_of h m =
    if not (is_finite h) || not (is_finite m)
    then none
    else if below h 0 || above h 23 || below m 0 || above m 59
    then none
    else some (record { hour = h; minute = m })

unfoldable pub parse_time : String → Option Time
unfolding split to_number
parse_time value =
    if is_empty value
    then none
    else let parts = split b':' value in time_of (number_at parts 0) (number_at parts 1)

-- The result of `buildCron`.
pub record CronResult : Type 0 where
  pub cron : Option String
  pub error : Option String

abbrev pub cron : String → CronResult
cron s = record { cron = some s; error = none }

abbrev pub no_cron : String → CronResult
no_cron e = record { cron = none; error = some e }

abbrev pub weekday_text : Weekday → String
weekday_text sun = "SUN"
weekday_text mon = "MON"
weekday_text tue = "TUE"
weekday_text wed = "WED"
weekday_text thu = "THU"
weekday_text fri = "FRI"
weekday_text sat = "SAT"

-- `weekNumber === 'L' ? 'L' : '#' + weekNumber`
abbrev suffix : WeekNumber → String
suffix first = "#1"
suffix second = "#2"
suffix third = "#3"
suffix fourth = "#4"
suffix last = "L"

-- `n && n > 0 ? n : 1`
abbrev every : Option Number → Number
every none = whole 1
every (some n) = if is_truthy n && above n 0 then n else whole 1

-- `n > 0 ? n : 1`
abbrev months : Number → Number
months n = if above n 0 then n else whole 1

-- `` `${t.minute} ${t.hour} ` ``
abbrev pub at : Time → String
at t = show_number t.minute +++ " " +++ show_number t.hour +++ " "

abbrev pub weekly_cron : List Weekday → Time → CronResult
weekly_cron [] t = no_cron "Select at least one day"
weekly_cron (d ∷ ds) t = cron (at t +++ "* * " +++ join "," (map weekday_text (d ∷ ds)))

abbrev pub monthly_cron : FormValues → List Weekday → Time → CronResult
monthly_cron form [] t = no_cron "Pick a weekday"
monthly_cron form (d ∷ ds) t = cron (
    at t
    +++ "* */"
    +++ show_number (months form.months_interval)
    +++ " "
    +++ weekday_text d
    +++ suffix form.week_number)

-- The cases that begin with `const t = parseTime(form.timeOfDay)`.
abbrev timed : Option Time → (Time → CronResult) → CronResult
timed none f = no_cron "Invalid time"
timed (some t) f = f t

unfoldable pub cron_of : Frequency → FormValues → CronResult
unfolding show_number parse_time trim
cron_of minute form =
    if below form.minute_every 1
    then no_cron "Minutes must be >=1"
    else cron ("*/" +++ show_number form.minute_every +++ " * * * *")
cron_of hourly form =
    if below form.hour_every 1
    then no_cron "Hours must be >=1"
    else if below form.minute_at 0 || above form.minute_at 59
    then no_cron "Minute must be 0-59"
    else cron (show_number form.minute_at +++ " */" +++ show_number form.hour_every +++ " * * *")
cron_of daily form =
    timed (parse_time form.time_of_day)
      (λ t. cron (at t +++ "*/" +++ show_number (every form.daily_every) +++ " * *"))
cron_of weekly form = timed (parse_time form.time_of_day) (weekly_cron form.days_of_week)
cron_of monthly_day form = timed (parse_time form.time_of_day) (λ t.
    if below form.day_of_month 1 || above form.day_of_month 31
    then no_cron "Day must be 1-31"
    else cron (
        at t
        +++ show_number form.day_of_month
        +++ " */"
        +++ show_number (months form.months_interval)
        +++ " *"))
cron_of monthly_weekday form =
    timed (parse_time form.time_of_day) (monthly_cron form form.days_of_week)
cron_of advanced form =
    let text = trim form.cron_expression in
    if is_empty text then no_cron "Cron is required" else cron text

abbrev pub is_time : TriggerType → Bool
is_time time = true
is_time queue = false

unfoldable pub build_cron : FormValues → CronResult
unfolding cron_of
build_cron form =
    if is_time form.type then cron_of form.frequency form else record { cron = none; error = none }
