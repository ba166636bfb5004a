-- ===== src/Trigger/Submit.antt =====
-- What the modal sends (`handleCreate` of TriggerModal.tsx) and what of it reaches the server
-- (api/triggers.ts).
use bv_orchestrator.Trigger.{TriggerType, time, queue, FormValues, Trigger}
use bv_orchestrator.Trigger.Cron.{
  CronResult, Time, build_cron, cron_of, time_of, number_at, is_time, parse_time,
}
use bv_orchestrator.Trigger.Validate.{validate, has_no_cron, all_timezones}
use bv_orchestrator.Trigger.Laws.{cron_of_lem, Lies}
use bv_orchestrator.Trigger.Accepts.{IsAcceptable, IsComplete, validate_iff}
use bv_orchestrator.Trigger.Modal.{
  Field, Payload, undefined, nothing, value, payload_of, alert, send, submit, update_body,
  with_field, field,
}
use bv_orchestrator.Common.Number.{Number, is_finite, is_truthy, below}
use bv_orchestrator.Json.{Json, str, num, Props, prop_of}
use mathlib.Core.Path.{subst}
use bv_orchestrator.Common.{
  ◌==◌, nat_eq, string_eq, or_default, Bool-cases, Option-cases, is_nil, has, has-every, is_empty,
  or_text_self, trim, split, String, ◌≡◌, refl, ap, ◌∙◌, ◌≢◌, ◌⊎◌, inl, inr, true, false, not,
  Option, none, some, List, [], ◌∷◌, arith,
}

is_nil-cases :
    {A : Type 0} (xs : List A)
    → ((is_nil xs ≡ true) × (xs ≡ [])) ⊎ ((is_nil xs ≡ false) × (xs ≢ []))
is_nil-cases [] = inl (refl, refl)
is_nil-cases (x ∷ xs) = inr (refl, λ e. cc)

has_cron :
    (r : CronResult)
    → has_no_cron r ≡ false
    → (c : String) × (r.cron ≡ some c) × (is_empty c ≡ false)
has_cron r h = elim (Option-cases r.cron) [
  | inl e ↦ (let no : is_empty (or_default r.cron "") ≡ true = rw (e) refl in absurd (ground arith))
  | inr (c, e) ↦
      (let same : is_empty (or_default r.cron "") ≡ is_empty c = rw (e) refl in
        (c, e, ground arith))
]

pub listed_nonempty : (z : String) → has z all_timezones ≡ true → is_empty z ≡ false
listed_nonempty z h =
    let listed : not (is_empty z) ≡ true =
      has-every (λ s. not (is_empty s)) z all_timezones refl h in
    ground arith

-- An accepted form of type TIME is sent with a cron expression that is not empty, its own timezone,
-- and no queue.
payload_of-time :
    (form : FormValues)
    → form.type ≡ time
    → IsAcceptable form
    → let p = payload_of form (build_cron form) in
      ((c : String) × (p.cron_expression ≡ value c) × (is_empty c ≡ false))
      × (p.timezone ≡ value form.timezone)
      × (p.queue_id ≡ nothing)
      × (p.batch_size ≡ nothing)
      × (p.polling_interval ≡ nothing)
unfolding payload_of build_cron
payload_of-time form h a =
    let b : is_time form.type ≡ true = ap is_time h in
    let (listed, scheduled) = subst (λ type. IsComplete type form) h a.complete in
    let (c, e, full) =
      has_cron (cron_of form.frequency form) (cron_of_lem form.frequency form scheduled) in
    rw (b) (
      (c, ap field e, full),
      ap value (or_text_self form.timezone "UTC" (listed_nonempty form.timezone listed)),
      refl,
      refl,
      refl,
    )

payload_of-queue :
    (form : FormValues)
    → form.type ≡ queue
    → IsAcceptable form
    → let p = payload_of form (build_cron form) in
      (is_truthy form.queue_id ≡ true)
      × (below form.batch_size 1 ≡ false)
      × (below form.polling_interval 1 ≡ false)
      × (p.queue_id ≡ value form.queue_id)
      × (p.batch_size ≡ value form.batch_size)
      × (p.polling_interval ≡ value form.polling_interval)
      × (p.cron_expression ≡ nothing)
      × (p.timezone ≡ nothing)
unfolding payload_of
payload_of-queue form h a =
    let b : is_time form.type ≡ false = ap is_time h in
    let (chosen, batch, interval) = subst (λ type. IsComplete type form) h a.complete in
    rw (b) (chosen, batch, interval, refl, refl, refl, refl, refl)

-- What a form of a type sends of its own: a schedule with its timezone and no queue, or a queue with
-- its numbers and no schedule.
abbrev pub Carries : TriggerType → FormValues → Payload → Type 0
Carries time form p =
    ((c : String) × (p.cron_expression ≡ value c) × (is_empty c ≡ false))
    × (p.timezone ≡ value form.timezone)
    × (p.queue_id ≡ nothing)
    × (p.batch_size ≡ nothing)
    × (p.polling_interval ≡ nothing)
Carries queue form p =
    (is_truthy form.queue_id ≡ true)
    × (below form.batch_size 1 ≡ false)
    × (below form.polling_interval 1 ≡ false)
    × (p.queue_id ≡ value form.queue_id)
    × (p.batch_size ≡ value form.batch_size)
    × (p.polling_interval ≡ value form.polling_interval)
    × (p.cron_expression ≡ nothing)
    × (p.timezone ≡ nothing)

abbrev pub IsSound : FormValues → Payload → Type 0
IsSound form p =
    (p.name ≡ trim form.name)
    × (is_empty p.name ≡ false)
    × (p.type ≡ form.type)
    × (p.process_id ≡ form.process_id)
    × (is_truthy p.process_id ≡ true)
    × Carries form.type form p

carried :
    (t : TriggerType) (form : FormValues)
    → form.type ≡ t
    → IsAcceptable form
    → Carries t form (payload_of form (build_cron form))
carried time form h a = payload_of-time form h a
carried queue form h a = payload_of-queue form h a

payload_of-IsSound :
    (form : FormValues) → IsAcceptable form → IsSound form (payload_of form (build_cron form))
unfolding payload_of
payload_of-IsSound form a =
    (refl, a.named, refl, refl, a.has_process, carried form.type form refl a)

-- The modal sends a form exactly when it is acceptable. Then the payload has its name, trimmed and not blank, its
-- type and its process; of a form of type TIME a cron expression that is not empty, its timezone, and no queue,
-- batch size or interval; of a form of type QUEUE its queue, its batch size and its interval, the two not below 1,
-- and no cron expression or timezone. Any other form is answered with an alert, and nothing is sent.
pub submit_outcome :
    (trigger : Option Trigger) (form : FormValues)
    → (IsAcceptable form
        × ((p : Payload) × (submit trigger form ≡ send trigger p) × IsSound form p))
      ⊎ ((¬ IsAcceptable form)
          × (submit trigger form ≡ alert "Fix the highlighted fields before saving"))
unfolding submit
submit_outcome trigger form = elim (is_nil-cases (validate form (build_cron form))) [
  | inl (n, e) ↦
      (let a = (validate_iff form).0 e in
        inl (a, (payload_of form (build_cron form), rw (n) refl, payload_of-IsSound form a)))
  | inr (n, e) ↦ inr (λ a. e ((validate_iff form).1 a), rw (n) refl)
]

time_of-Lies :
    (h m : Number) (t : Time)
    → time_of h m ≡ some t
    → (is_finite t.hour ≡ true)
      × (is_finite t.minute ≡ true)
      × Lies t.hour 0 23
      × Lies t.minute 0 59
time_of-Lies h m t e = ground arith

-- A time that is read has an hour from 0 to 23 and a minute from 0 to 59, both finite numbers.
pub parse_time-Lies :
    (v : String) (t : Time)
    → parse_time v ≡ some t
    → (is_finite t.hour ≡ true)
      × (is_finite t.minute ≡ true)
      × Lies t.hour 0 23
      × Lies t.minute 0 59
unfolding parse_time
parse_time-Lies v t h = elim (Bool-cases (is_empty v)) [
  | inl empty ↦ (let no : none ≡ some t = rw (empty) at h in absurd cc)
  | inr text ↦
      (let parts = split b':' v in
        time_of-Lies (number_at parts 0) (number_at parts 1) t (rw (text) at h))
]

prop_of-with_field :
    {A : Type 0} (k j : String) (f : A → Json) (x : Field A) (ps : Props)
    → (j == k) ≡ false
    → prop_of k (with_field j f x ps) ≡ prop_of k ps
prop_of-with_field k j f undefined ps h = refl
prop_of-with_field k j f nothing ps h = rw (h) refl
prop_of-with_field k j f (value a) ps h = rw (h) refl

-- A robot that was chosen before is not taken away: with "Any available" chosen, the body of the
-- update does not name `robot_id` at all, whatever else the form holds.
update_body-robot :
    (form : FormValues) (r : CronResult)
    → form.robot_id ≡ none
    → prop_of "robot_id" (update_body (payload_of form r)) ≡ none
unfolding update_body payload_of
update_body-robot form r h =
    let p = payload_of form r in
    rw (h) (
      prop_of-with_field "robot_id" "cron_expression" str p.cron_expression _ refl
      ∙ prop_of-with_field "robot_id" "timezone" str p.timezone _ refl
      ∙ prop_of-with_field "robot_id" "queue_id" num p.queue_id _ refl
      ∙ prop_of-with_field "robot_id" "batch_size" num p.batch_size _ refl
      ∙ prop_of-with_field "robot_id" "polling_interval" num p.polling_interval _ refl)
