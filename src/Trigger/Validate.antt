-- ===== src/Trigger/Validate.antt =====
-- TriggerModal.tsx: `validate`, the errors of a form; utils/timezones.ts.
use bv_orchestrator.Trigger.{
  Frequency, minute, hourly, daily, weekly, monthly_day, monthly_weekday, advanced, FormValues,
}
use bv_orchestrator.Trigger.Cron.{CronResult, parse_time, is_time}
use bv_orchestrator.Common.Number.{Number, is_truthy, below, above}
use bv_orchestrator.Common.{
  ◌==◌, nat_eq, string_eq, if◌then◌else◌, or_default, is_some, is_nil, has, is_empty, text_or, trim,
  String, Bool, true, not, ◌||◌, Option, none, some, List, [], ◌∷◌,
}

abbrev pub all_timezones : List String
all_timezones =
    "UTC" ∷ "Africa/Cairo" ∷ "Africa/Johannesburg" ∷ "Africa/Lagos" ∷ "America/Anchorage"
    ∷ "America/Argentina/Buenos_Aires" ∷ "America/Bogota" ∷ "America/Chicago" ∷ "America/Denver"
    ∷ "America/Los_Angeles" ∷ "America/Mexico_City" ∷ "America/New_York" ∷ "America/Sao_Paulo"
    ∷ "America/Toronto" ∷ "America/Vancouver" ∷ "Asia/Dubai" ∷ "Asia/Hong_Kong" ∷ "Asia/Kolkata"
    ∷ "Asia/Shanghai" ∷ "Asia/Singapore" ∷ "Asia/Tokyo" ∷ "Europe/Amsterdam" ∷ "Europe/Berlin"
    ∷ "Europe/London" ∷ "Europe/Moscow" ∷ "Europe/Paris" ∷ "Europe/Rome" ∷ "Europe/Zurich"
    ∷ "Pacific/Auckland" ∷ "Pacific/Honolulu" ∷ "Pacific/Sydney" ∷ []

abbrev pub Errors : Type 0
Errors = List (String × String)

-- `errs[key] = message`
abbrev pub put : String → String → Errors → Errors
put key message [] = (key, message) ∷ []
put key message ((k, m) ∷ errs) =
    if k == key then (k, message) ∷ errs else (k, m) ∷ put key message errs

-- `if (wrong) errs[key] = message`
abbrev pub refuse : Bool → String → String → Errors → Errors
refuse wrong key message errs = if wrong then put key message errs else errs

-- `!n || n < 1`
abbrev pub too_few : Option Number → Bool
too_few none = true
too_few (some n) = not (is_truthy n) || below n 1

-- the switch on the frequency
unfoldable pub validate_frequency : Frequency → FormValues → Errors → Errors
unfolding parse_time trim
validate_frequency minute form errs =
    refuse (below form.minute_every 1) "minuteEvery" "Must be >=1" errs
validate_frequency hourly form errs =
    refuse (below form.minute_at 0 || above form.minute_at 59) "minuteAt" "0-59 only"
      (refuse (below form.hour_every 1) "hourEvery" "Must be >=1" errs)
validate_frequency daily form errs =
    refuse (too_few form.daily_every) "dailyEvery" "Must be >=1"
      (refuse (not (is_some (parse_time form.time_of_day))) "timeOfDay" "Pick a valid time" errs)
validate_frequency weekly form errs =
    refuse (is_nil form.days_of_week) "daysOfWeek" "Pick at least one day"
      (refuse (not (is_some (parse_time form.time_of_day))) "timeOfDay" "Pick a valid time" errs)
validate_frequency monthly_day form errs =
    refuse (below form.months_interval 1) "monthsInterval" "Must be >=1" (
      refuse (below form.day_of_month 1 || above form.day_of_month 31) "dayOfMonth" "1-31 only"
        (refuse (not (is_some (parse_time form.time_of_day))) "timeOfDay" "Pick a valid time" errs))
validate_frequency monthly_weekday form errs =
    refuse (below form.months_interval 1) "monthsInterval" "Must be >=1" (
      refuse (is_nil form.days_of_week) "daysOfWeek" "Pick a weekday"
        (refuse (not (is_some (parse_time form.time_of_day))) "timeOfDay" "Pick a valid time" errs))
validate_frequency advanced form errs =
    refuse (is_empty (trim form.cron_expression)) "cronExpression" "Cron is required" errs

unfoldable pub validate_timezone : String → Errors → Errors
unfolding trim
validate_timezone timezone errs =
    if is_empty (trim timezone)
    then put "timezone" "Timezone is required" errs
    else refuse (not (has timezone all_timezones)) "timezone" "Invalid timezone" errs

-- `cronResult.error || !cronResult.cron`
abbrev pub has_no_cron : CronResult → Bool
has_no_cron r = not (is_empty (or_default r.error "")) || is_empty (or_default r.cron "")

unfoldable pub validate_time : FormValues → CronResult → Errors → Errors
unfolding validate_timezone validate_frequency
validate_time form result errs = validate_frequency form.frequency form (
    refuse (has_no_cron result) "cronExpression" (text_or result.error "Cron is required")
      (validate_timezone form.timezone errs))

unfoldable pub validate_queue : FormValues → Errors → Errors
validate_queue form errs = refuse (below form.polling_interval 1) "pollingInterval" "Must be >=1" (
    refuse (below form.batch_size 1) "batchSize" "Must be >=1"
      (refuse (not (is_truthy form.queue_id)) "queueId" "Queue is required" errs))

-- The errors whatever the type.
unfoldable pub validate_common : FormValues → Errors
unfolding trim
validate_common form =
    refuse (not (is_truthy form.process_id)) "processId" "Process is required"
      (refuse (is_empty (trim form.name)) "name" "Name is required" [])

unfoldable pub validate : FormValues → CronResult → Errors
unfolding validate_time validate_queue validate_common
validate form result =
    if is_time form.type
    then validate_time form result (validate_common form)
    else validate_queue form (validate_common form)
