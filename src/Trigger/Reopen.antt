-- ===== src/Trigger/Reopen.antt =====
-- A trigger that is opened and saved again (TriggerModal.tsx).
use bv_orchestrator.Trigger.{time, FormValues, Trigger, form_from_trigger}
use bv_orchestrator.Trigger.Cron.{cron, cron_of, build_cron}
use bv_orchestrator.Trigger.Validate.{all_timezones}
use bv_orchestrator.Trigger.Accepts.{IsAcceptable, validate_iff}
use bv_orchestrator.Trigger.Modal.{
  undefined, nothing, value, payload_of, update, submit, robot_field,
}
use bv_orchestrator.Common.Number.{Number, is_truthy}
use bv_orchestrator.Trigger.Submit.{listed_nonempty}
use bv_orchestrator.Common.{
  nat_eq, string_eq, has, is_empty, or_text, or_text_self, trim, String, ◌≡◌, refl, ap, ◌∙◌, Bool,
  true, false, Option, some,
}

-- A saved form that is acceptable.
submit-acceptable :
    (trigger : Trigger) (form : FormValues)
    → IsAcceptable form
    → submit (some trigger) form ≡ update trigger.id (payload_of form (build_cron form))
unfolding submit
submit-acceptable trigger form a = rw ((validate_iff form).1 a) refl

-- A trigger of type TIME, whose name and cron expression have no blanks around them and whose
-- timezone is listed, is sent back as it was when it is opened and saved unchanged; a robot whose id
-- is 0 counts as none.
pub reopen_time :
    (id name c z : String) (process_id : Number) (enabled : Bool)
    (robot_id queue_id batch_size polling_interval : Option Number)
    → trim name ≡ name
    → is_empty name ≡ false
    → trim c ≡ c
    → is_empty c ≡ false
    → has z all_timezones ≡ true
    → is_truthy process_id ≡ true
    → let t : Trigger = record {
      id = id;
      name = name;
      type = time;
      process_id = process_id;
      enabled = enabled;
      robot_id = robot_id;
      cron_expression = some c;
      timezone = some z;
      queue_id = queue_id;
      batch_size = batch_size;
      polling_interval = polling_interval;
    } in
      submit (some t) (form_from_trigger t)
      ≡ update id (record {
        name = name;
        type = time;
        process_id = process_id;
        enabled = undefined;
        robot_id = robot_field robot_id;
        cron_expression = value c;
        timezone = value z;
        queue_id = nothing;
        batch_size = nothing;
        polling_interval = nothing;
      })
unfolding form_from_trigger payload_of build_cron cron_of
reopen_time id name c z process_id enabled robot_id queue_id batch_size polling_interval tn en tc ec
      hz p =
    let z_kept : or_text z "UTC" ≡ z = or_text_self z "UTC" (listed_nonempty z hz) in
    let c_kept : or_text c "" ≡ c = or_text_self c "" ec in
    let t : Trigger = record {
      id = id;
      name = name;
      type = time;
      process_id = process_id;
      enabled = enabled;
      robot_id = robot_id;
      cron_expression = some c;
      timezone = some z;
      queue_id = queue_id;
      batch_size = batch_size;
      polling_interval = polling_interval;
    } in
    let named : is_empty (trim name) ≡ false = rw (tn) en in
    let listed : has (or_text z "UTC") all_timezones ≡ true = rw (z_kept) hz in
    let set : is_empty (trim (or_text c "")) ≡ false = rw (c_kept, tc) ec in
    let built : build_cron (form_from_trigger t) ≡ cron c = rw (c_kept, tc, ec) refl in
    submit-acceptable t (form_from_trigger t)
      (record { named = named; has_process = p; complete = (listed, set) })
    ∙ ap (update id) (rw (built, tn, z_kept, z_kept) refl)
