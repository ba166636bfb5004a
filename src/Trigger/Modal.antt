-- ===== src/Trigger/Modal.antt =====
-- TriggerModal.tsx: what the modal sends for a form (`handleCreate`), and api/triggers.ts: the
-- bodies of `createTrigger` and `updateTrigger`.
use bv_orchestrator.Trigger.{TriggerType, time, queue, FormValues, Trigger, make_empty_form, whole}
use bv_orchestrator.Trigger.Cron.{CronResult, build_cron, is_time}
use bv_orchestrator.Trigger.Validate.{validate}
use bv_orchestrator.Common.Number.{Number, is_truthy}
use bv_orchestrator.Json.{Json, null, bool, num, str, Props, end, prop}
use bv_orchestrator.Common.{
  nat_eq, string_eq, if◌then◌else◌, or_default, is_nil, or_text, trim, ℕ, ◌+◌, String, Bool, true,
  false, ◌&&◌, Option, none, some, List, ◌∷◌,
}

-- A property of a payload, which the caller may leave out.
pub data Field (A : Type 0) : Type 0 where
  undefined : Field A
  nothing : Field A
  value : A → Field A

pub record Payload : Type 0 where
  pub name : String
  pub type : TriggerType
  pub process_id : Number
  pub enabled : Field Bool
  pub robot_id : Field Number
  pub cron_expression : Field String
  pub timezone : Field String
  pub queue_id : Field Number
  pub batch_size : Field Number
  pub polling_interval : Field Number

abbrev pub field : {A : Type 0} → Option A → Field A
field none = nothing
field (some a) = value a

-- `form.robotId || undefined`
abbrev pub robot_field : Option Number → Field Number
robot_field none = undefined
robot_field (some n) = if is_truthy n then value n else undefined

unfoldable pub payload_of : FormValues → CronResult → Payload
unfolding trim
payload_of form result = record {
  name = trim form.name;
  type = form.type;
  process_id = form.process_id;
  enabled = undefined;
  robot_id = robot_field form.robot_id;
  cron_expression = if is_time form.type then field result.cron else nothing;
  timezone = if is_time form.type then value (or_text form.timezone "UTC") else nothing;
  queue_id = if is_time form.type then nothing else value form.queue_id;
  batch_size = if is_time form.type then nothing else value form.batch_size;
  polling_interval = if is_time form.type then nothing else value form.polling_interval;
}

-- What `handleCreate` does before it waits for the server.
pub data Submission : Type 0 where
  alert : String → Submission
  create : Payload → Submission
  update : (id : String) → Payload → Submission

abbrev pub send : Option Trigger → Payload → Submission
send none p = create p
send (some t) p = update t.id p

unfoldable pub submit : Option Trigger → FormValues → Submission
unfolding validate build_cron payload_of
submit trigger form =
    let result = build_cron form in
    if is_nil (validate form result)
    then send trigger (payload_of form result)
    else alert "Fix the highlighted fields before saving"

abbrev pub type_text : TriggerType → String
type_text time = "TIME"
type_text queue = "QUEUE"

-- `payload.x ?? null`
abbrev or_null : {A : Type 0} → (A → Json) → Field A → Json
or_null f (value a) = f a
or_null f _ = null

-- `payload.enabled ?? true`
abbrev enabled_or : Field Bool → Json
enabled_or (value b) = bool b
enabled_or _ = bool true

unfoldable pub create_body : Payload → Props
create_body p = prop "name" (str p.name) (
    prop "type" (str (type_text p.type)) (
      prop "process_id" (num p.process_id) (
        prop "enabled" (enabled_or p.enabled) (
          prop "robot_id" (or_null num p.robot_id) (
            prop "cron_expression" (or_null str p.cron_expression) (
              prop "timezone" (or_null str p.timezone) (
                prop "queue_id" (or_null num p.queue_id) (
                  prop "batch_size" (or_null num p.batch_size)
                    (prop "polling_interval" (or_null num p.polling_interval) end)))))))))

-- `if (payload.x !== undefined) body.key = payload.x`
abbrev pub with_field : {A : Type 0} → String → (A → Json) → Field A → Props → Props
with_field key f undefined ps = ps
with_field key f nothing ps = prop key null ps
with_field key f (value a) ps = prop key (f a) ps

unfoldable pub update_body : Payload → Props
update_body p = prop "name" (str p.name) (
    prop "type" (str (type_text p.type)) (
      prop "process_id" (num p.process_id) (
        with_field "enabled" bool p.enabled (
          with_field "robot_id" num p.robot_id (
            with_field "cron_expression" str p.cron_expression (
              with_field "timezone" str p.timezone (
                with_field "queue_id" num p.queue_id (
                  with_field "batch_size" num p.batch_size
                    (with_field "polling_interval" num p.polling_interval end)))))))))

-- The state of the modal; `created` and `closed` count the calls of `onCreated` and of `onClose`.
pub record Modal : Type 0 where
  pub form : FormValues
  pub saving : Bool
  pub created : ℕ
  pub closed : ℕ
  pub alerts : List String

-- `handleCreate` after the answer of the server: `none`, or the message that it fails with
unfoldable pub finish : Option Number → Option String → Modal → Modal
unfolding make_empty_form
finish default_process none m = record m {
  form = make_empty_form default_process;
  saving = false;
  created = m.created + 1;
  closed = m.closed + 1;
}
finish default_process (some e) m = record m {
  saving = false;
  alerts = or_text e "Create failed" ∷ m.alerts;
}

abbrev is_set : Option Number → Bool
is_set none = false
is_set (some n) = is_truthy n

-- `o || d`
abbrev or_zero : Option Number → Number → Number
or_zero none d = d
or_zero (some n) d = if is_truthy n then n else d

-- The effect that fills in the process: `first` is `processes[0]?.id`.
unfoldable pub fill_process : Bool → Option Number → Option Number → FormValues → FormValues
fill_process lock default_process first form =
    if lock && is_set default_process
    then record form { process_id = or_default default_process (whole 0) }
    else if is_truthy form.process_id
    then form
    else record form { process_id = or_zero default_process (or_zero first (whole 0)) }
