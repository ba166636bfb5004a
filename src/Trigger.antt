-- ===== src/Trigger.antt =====
-- TriggerModal.tsx: the form of a trigger, and the trigger that it edits (types/trigger.ts).
pub mod Cron
pub mod Validate
pub mod Laws
pub mod Accepts
pub mod Modal
pub mod Submit
pub mod Reopen
pub mod Edits
pub mod Entered
pub mod Select
pub mod Walk
pub mod Enter
pub mod Tests
pub mod Page
pub mod Hidden
pub mod PageTests
use bv_orchestrator.Common.Number.{Number, int, or_number}
use bv_orchestrator.Common.Int.{pos}
use bv_orchestrator.Common.{
  nat_eq, string_eq, or_default, text_or, ℕ, String, Bool, Option, none, some, List, [], ◌∷◌,
}

pub data TriggerType : Type 0 where
  time queue : TriggerType

pub data Weekday : Type 0 where
  sun mon tue wed thu fri sat : Weekday

pub data WeekNumber : Type 0 where
  first second third fourth last : WeekNumber

pub data Frequency : Type 0 where
  minute hourly daily weekly monthly_day monthly_weekday advanced : Frequency

pub record FormValues : Type 0 where
  pub name : String
  pub type : TriggerType
  pub process_id : Number
  pub robot_id : Option Number
  pub timezone : String
  pub frequency : Frequency
  pub minute_every : Number
  pub hour_every : Number
  pub minute_at : Number
  pub daily_every : Option Number
  pub time_of_day : String
  pub days_of_week : List Weekday
  pub day_of_month : Number
  pub months_interval : Number
  pub week_number : WeekNumber
  pub cron_expression : String
  pub queue_id : Number
  pub batch_size : Number
  pub polling_interval : Number

-- The properties of a `Trigger` that the program reads; null and undefined are `none`.
pub record Trigger : Type 0 where
  pub id : String
  pub name : String
  pub type : TriggerType
  pub process_id : Number
  pub enabled : Bool
  pub robot_id : Option Number
  pub cron_expression : Option String
  pub timezone : Option String
  pub queue_id : Option Number
  pub batch_size : Option Number
  pub polling_interval : Option Number

abbrev pub whole : ℕ → Number
whole n = int (pos n)

abbrev pub base_form : FormValues
base_form = record {
  name = "";
  type = time;
  process_id = whole 0;
  robot_id = none;
  timezone = "UTC";
  frequency = daily;
  minute_every = whole 5;
  hour_every = whole 1;
  minute_at = whole 0;
  daily_every = some (whole 1);
  time_of_day = "09:00";
  days_of_week = mon ∷ [];
  day_of_month = whole 1;
  months_interval = whole 1;
  week_number = first;
  cron_expression = "";
  queue_id = whole 0;
  batch_size = whole 1;
  polling_interval = whole 30;
}

unfoldable pub make_empty_form : Option Number → FormValues
make_empty_form process_id = record base_form { process_id = or_default process_id (whole 0) }

-- `o || d` of a number that may be missing
abbrev pub number_or : Option Number → Number → Number
number_or none d = d
number_or (some n) d = or_number n d

abbrev pub form_of : TriggerType → Trigger → FormValues
form_of queue t = record base_form {
  type = queue;
  name = t.name;
  process_id = t.process_id;
  robot_id = t.robot_id;
  queue_id = number_or t.queue_id (whole 0);
  batch_size = number_or t.batch_size (whole 1);
  polling_interval = number_or t.polling_interval (whole 30);
}
form_of time t = record base_form {
  type = time;
  name = t.name;
  process_id = t.process_id;
  robot_id = t.robot_id;
  timezone = text_or t.timezone "UTC";
  frequency = advanced;
  cron_expression = text_or t.cron_expression "";
}

unfoldable pub form_from_trigger : Trigger → FormValues
form_from_trigger t = form_of t.type t
