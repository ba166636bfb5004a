-- ===== src/Trigger/Tests.antt =====
-- The trigger modal on concrete forms (TriggerModal.tsx).
use bv_orchestrator.Trigger.{
  time, queue, hourly, FormValues, Trigger, base_form, make_empty_form, form_from_trigger, whole,
  fri,
}
use bv_orchestrator.Trigger.Cron.{build_cron, parse_time}
use bv_orchestrator.Trigger.Validate.{validate}
use bv_orchestrator.Trigger.Accepts.{IsAcceptable, validate_iff}
use bv_orchestrator.Trigger.Modal.{
  Payload, undefined, nothing, value, payload_of, alert, update, send, submit,
}
use bv_orchestrator.Trigger.Submit.{IsSound, submit_outcome}
use bv_orchestrator.Trigger.Reopen.{reopen_time}
use bv_orchestrator.Trigger.Edits.{edits, weekday_toggled, minute_every_typed, weekday_eq}
use bv_orchestrator.Trigger.Entered.{IsEntered, edits-IsEntered}
use bv_orchestrator.Trigger.Select.{
  Choice, enter, pressed, type_error, filtered, matches, key_down, focused, step, initial,
}
use bv_orchestrator.Trigger.Walk.{after}
use bv_orchestrator.Trigger.Enter.{select-IsSafe}
use bv_orchestrator.Common.Number.{to_number, show_number}
use bv_orchestrator.Common.Int.{◌+ℤ◌}
use bv_orchestrator.Common.{
  nat_eq, string_eq, keep, trim, ◌≡◌, refl, ◌≢◌, ◌↔◌, ◌⊎◌, true, none, some, List, [], ◌∷◌,
}

modal : Unit {0}
unfolding build_cron validate submit payload_of trim to_number show_number parse_time edits step
    filtered ◌+ℤ◌ matches
modal = tt

abbrev nightly : FormValues
nightly = record base_form { name = "nightly"; process_id = whole 3 }

cron_tests :
    ((build_cron nightly).cron ≡ some "0 9 */1 * *")
    × ((build_cron (record nightly { time_of_day = "24:00" })).error ≡ some "Invalid time")
    × ((build_cron (record nightly { frequency = hourly; minute_at = whole 60 })).error
        ≡ some "Minute must be 0-59")
    × (validate nightly (build_cron nightly) ≡ [])
unfolding modal
cron_tests = (refl, refl, refl, refl)

nightly_accepted : IsAcceptable nightly
unfolding modal
nightly_accepted = (validate_iff nightly).0 refl

validate_iff_example : (validate base_form (build_cron base_form) ≡ []) ↔ IsAcceptable base_form
validate_iff_example = validate_iff base_form

submit_outcome_example :
    (IsAcceptable nightly
      × ((p : Payload) × (submit none nightly ≡ send none p) × IsSound nightly p))
    ⊎ ((¬ IsAcceptable nightly)
        × (submit none nightly ≡ alert "Fix the highlighted fields before saving"))
submit_outcome_example = submit_outcome none nightly

trimmed_name : trim "nightly" ≡ "nightly"
unfolding modal
trimmed_name = refl

trimmed_cron : trim "*/5 * * * *" ≡ "*/5 * * * *"
unfolding modal
trimmed_cron = refl

reopen_time_example :
    let t : Trigger = record {
      id = "t1";
      name = "nightly";
      type = time;
      process_id = whole 3;
      enabled = true;
      robot_id = some (whole 2);
      cron_expression = some "*/5 * * * *";
      timezone = some "Asia/Tokyo";
      queue_id = none;
      batch_size = none;
      polling_interval = none;
    } in
    submit (some t) (form_from_trigger t)
    ≡ update "t1" (record {
      name = "nightly";
      type = time;
      process_id = whole 3;
      enabled = undefined;
      robot_id = value (whole 2);
      cron_expression = value "*/5 * * * *";
      timezone = value "Asia/Tokyo";
      queue_id = nothing;
      batch_size = nothing;
      polling_interval = nothing;
    })
reopen_time_example =
    reopen_time "t1" "nightly" "*/5 * * * *" "Asia/Tokyo" (whole 3) true (some (whole 2)) none none
      none trimmed_name refl trimmed_cron refl refl refl

abbrev old : Trigger
old = record {
  id = "t1";
  name = "n";
  type = queue;
  process_id = whole 3;
  enabled = true;
  robot_id = none;
  cron_expression = none;
  timezone = none;
  queue_id = some (whole 4);
  batch_size = some (whole 0);
  polling_interval = none;
}

edits-IsEntered_example :
    IsEntered (edits (weekday_toggled fri ∷ minute_every_typed "x" ∷ []) (make_empty_form none))
    × IsEntered (edits (weekday_toggled fri ∷ minute_every_typed "x" ∷ []) (form_from_trigger old))
edits-IsEntered_example =
    edits-IsEntered (weekday_toggled fri ∷ minute_every_typed "x" ∷ []) none old

abbrev zones : List Choice
zones = record { value = "UTC"; label = "(UTC) Coordinated" } ∷ []

opened :
    after zones (focused ∷ []) (pressed none initial)
    ≡ pressed none (record initial { is_open = true })
unfolding modal
opened = refl

some_shown : filtered zones (record initial { is_open = true }) ≢ []
unfolding modal
some_shown e = cc

select-IsSafe_example : step zones (key_down enter) (record initial { is_open = true }) ≢ type_error
select-IsSafe_example =
    select-IsSafe zones (focused ∷ []) none (record initial { is_open = true }) (key_down enter)
      opened some_shown

none_shown : keep (matches "zz") zones ≡ []
unfolding modal
none_shown = refl
