-- ===== src/Trigger/Accepts.antt =====
-- Which forms `validate` accepts (TriggerModal.tsx).
use bv_orchestrator.Trigger.{TriggerType, time, queue, FormValues}
use bv_orchestrator.Trigger.Cron.{build_cron, cron_of, is_time}
use bv_orchestrator.Trigger.Validate.{
  Errors, put, validate_timezone, validate_time, validate_queue, validate_common, validate,
  has_no_cron, all_timezones,
}
use bv_orchestrator.Trigger.Laws.{
  put-ne-nil, refuse_lem, refuse_iff, self_iff, IsScheduled, validate_frequency_lem, cron_of_lem,
}
use bv_orchestrator.Common.Number.{is_truthy, below}
use bv_orchestrator.Common.{
  nat_eq, string_eq, Bool-cases, every, has, has-every, is_empty, text_or, trim, String, ◌≡◌, refl,
  sym, ap, ◌∙◌, ◌↔◌, inl, inr, Bool, true, false, not, [], arith,
}

not_iff : {b : Bool} → (not b ≡ false) ↔ (b ≡ true)
not_iff {b} = (λ h. ground arith, λ h. ground arith)

-- What the form must hold for its type.
abbrev pub IsComplete : TriggerType → FormValues → Type 0
IsComplete time form = (has form.timezone all_timezones ≡ true) × IsScheduled form.frequency form
IsComplete queue form =
    (is_truthy form.queue_id ≡ true)
    × (below form.batch_size 1 ≡ false)
    × (below form.polling_interval 1 ≡ false)

pub record IsAcceptable (form : FormValues) : Type 0 where
  pub named : is_empty (trim form.name) ≡ false
  pub has_process : is_truthy form.process_id ≡ true
  pub complete : IsComplete form.type form

timezones_not_blank : every (λ z. not (is_empty (trim z))) all_timezones ≡ true
unfolding trim
timezones_not_blank = refl

validate_timezone_lem :
    (z : String) (errs : Errors)
    → (validate_timezone z errs ≡ []) ↔ ((errs ≡ []) × (has z all_timezones ≡ true))
unfolding validate_timezone
validate_timezone_lem z errs = elim (Bool-cases (is_empty (trim z))) [
  | inl blank ↦
      (let e : validate_timezone z errs ≡ put "timezone" "Timezone is required" errs =
          rw (blank) refl in
        (
          λ h. absurd (put-ne-nil "timezone" "Timezone is required" errs (sym e ∙ h)),
          λ (q, h).
              let no : not (is_empty (trim z)) ≡ true =
                has-every (λ s. not (is_empty (trim s))) z all_timezones timezones_not_blank h in
              absurd (ground arith),
        ))
  | inr text ↦ rw (text) (refuse_iff "timezone" "Invalid timezone" not_iff self_iff)
]

validate_time_lem :
    (form : FormValues) (errs : Errors)
    → (validate_time form (cron_of form.frequency form) errs ≡ [])
      ↔ ((errs ≡ []) × (has form.timezone all_timezones ≡ true) × IsScheduled form.frequency form)
unfolding validate_time
validate_time_lem form errs =
    let zone = validate_timezone_lem form.timezone errs in
    let result = cron_of form.frequency form in
    let with_cron =
      refuse_iff {wrong = has_no_cron result} "cronExpression"
        (text_or result.error "Cron is required") self_iff zone in
    let whole = validate_frequency_lem form.frequency form _ in
    (
      λ h. let (a, s) = whole.0 h in let ((e, z), c) = with_cron.0 a in (e, z, s),
      λ (e, z, s). whole.1 (with_cron.1 ((e, z), cron_of_lem form.frequency form s), s),
    )

validate_queue_lem :
    (form : FormValues) (errs : Errors)
    → (validate_queue form errs ≡ []) ↔ ((errs ≡ []) × IsComplete queue form)
unfolding validate_queue
validate_queue_lem form errs =
    let whole =
      refuse_iff "pollingInterval" "Must be >=1"
        (self_iff {P = below form.polling_interval 1 ≡ false})
        (refuse_iff "batchSize" "Must be >=1" (self_iff {P = below form.batch_size 1 ≡ false}) (
          refuse_iff {errs = errs} "queueId" "Queue is required"
            (not_iff {b = is_truthy form.queue_id}) self_iff)) in
    (
      λ h. let (((e, q), b), p) = whole.0 h in (e, (q, b, p)),
      λ (e, (q, b, p)). whole.1 (((e, q), b), p),
    )

validate_common_lem :
    (form : FormValues)
    → (validate_common form ≡ [])
      ↔ ((is_empty (trim form.name) ≡ false) × (is_truthy form.process_id ≡ true))
unfolding validate_common
validate_common_lem form =
    let whole =
      refuse_iff "processId" "Process is required" (not_iff {b = is_truthy form.process_id})
        (refuse_lem (is_empty (trim form.name)) "name" "Name is required" []) in
    (λ h. let ((n, e), p) = whole.0 h in (n, p), λ (n, p). whole.1 ((n, refl), p))

validate-time :
    (form : FormValues)
    → is_time form.type ≡ true
    → validate form (build_cron form)
      ≡ validate_time form (cron_of form.frequency form) (validate_common form)
unfolding validate build_cron
validate-time form h = rw (h) refl

validate-queue :
    (form : FormValues)
    → is_time form.type ≡ false
    → validate form (build_cron form) ≡ validate_queue form (validate_common form)
unfolding validate
validate-queue form h = rw (h) refl

validate_of :
    (form : FormValues) (type : TriggerType)
    → form.type ≡ type
    → (validate form (build_cron form) ≡ []) ↔ (
        (is_empty (trim form.name) ≡ false)
        × (is_truthy form.process_id ≡ true)
        × IsComplete type form)
validate_of form time h =
    let e = validate-time form (ap is_time h) in
    let first = validate_common_lem form in
    let more = validate_time_lem form (validate_common form) in
    (
      λ q. let (w, z, s) = more.0 (sym e ∙ q) in let (n, p) = first.0 w in (n, p, (z, s)),
      λ (n, p, (z, s)). e ∙ more.1 (first.1 (n, p), z, s),
    )
validate_of form queue h =
    let e = validate-queue form (ap is_time h) in
    let first = validate_common_lem form in
    let more = validate_queue_lem form (validate_common form) in
    (
      λ q. let (w, c) = more.0 (sym e ∙ q) in let (n, p) = first.0 w in (n, p, c),
      λ (n, p, c). e ∙ more.1 (first.1 (n, p), c),
    )

-- A form is accepted, that is, `validate` finds no error in it and in the cron expression built
-- from it, exactly when it has a name that is not blank, a process, and what its type needs: a
-- listed timezone and a complete schedule of its frequency, or a queue with a batch size and a
-- polling interval of no less than 1.
pub validate_iff : (form : FormValues) → (validate form (build_cron form) ≡ []) ↔ IsAcceptable form
validate_iff form =
    let whole = validate_of form form.type refl in
    (
      λ h. let (n, p, c) = whole.0 h in record { named = n; has_process = p; complete = c },
      λ a. whole.1 (a.named, a.has_process, a.complete),
    )
