-- ===== src/Client/Answers.antt =====
-- What the calls of Client.Requests make of the server's answers.
use bv_orchestrator.Client.Operations.{
  Operation, list_assets, add_asset, change_asset, remove_asset, list_robots, add_robot,
  change_robot, remove_robot, list_machines, one_machine, add_machine, remove_machine, renew_key,
  list_processes, one_process, add_process, change_process, upgrade_process, remove_process,
  list_jobs, one_job, add_job, change_job, end_job_gently, end_job, end_job_now, send_package,
  list_packages, change_package, remove_package, list_triggers, turn_on, turn_off, change_trigger,
  remove_trigger, add_trigger, call_of,
}
use bv_orchestrator.Client.{
  ApiResponse, with_headers, auth_headers, bearer_headers, bearer_json, is_success, decode,
  camel_value, read_error, read_undetailed, read_detailed,
}
use bv_orchestrator.Json.{Json}
use bv_orchestrator.Json.Case.{to_camel}
use bv_orchestrator.Common.{
  nat_eq, string_eq, if◌then◌else◌, or_default, is_empty, String, ◌≡◌, refl, ap, ◌⊎◌, inl, inr,
  Bool, true, false, Option, none,
}

-- the calls of which the answer has no value
abbrev pub is_void : Operation → Bool
is_void (remove_asset a) = true
is_void (remove_robot a) = true
is_void (remove_machine a) = true
is_void (remove_process a) = true
is_void (remove_package a) = true
is_void (remove_trigger a) = true
is_void _ = false

-- the calls whose errors are read by `readError`: those of packages.ts, processes.ts, jobs.ts and triggers.ts
abbrev pub is_detailed : Operation → Bool
is_detailed (list_assets a) = false
is_detailed (add_asset a) = false
is_detailed (change_asset a b) = false
is_detailed (remove_asset a) = false
is_detailed (list_robots a b) = false
is_detailed (add_robot a) = false
is_detailed (change_robot a b) = false
is_detailed (remove_robot a) = false
is_detailed list_machines = false
is_detailed (one_machine a) = false
is_detailed (add_machine a) = false
is_detailed (remove_machine a) = false
is_detailed (renew_key a) = false
is_detailed _ = true

abbrev shown_error : (String → String ⊎ Json) → Operation → String → String
shown_error parse op text = if is_detailed op then read_error parse text else text

abbrev value_of : (String → String ⊎ Json) → Operation → ApiResponse → String ⊎ Option Json
value_of parse op r = if is_void op then inr none else decode camel_value (parse r.text)

pub receive_lem :
    (parse : String → String ⊎ Json) (token : Option String) (op : Operation) (r : ApiResponse)
    → (call_of parse token op).receive r
      ≡ (if is_success r then value_of parse op r else inl (shown_error parse op r.text))
unfolding read_undetailed read_detailed to_camel
receive_lem parse token (list_assets a) r = refl
receive_lem parse token (add_asset a) r = refl
receive_lem parse token (change_asset a b) r = refl
receive_lem parse token (remove_asset a) r = refl
receive_lem parse token (list_robots a b) r = refl
receive_lem parse token (add_robot a) r = refl
receive_lem parse token (change_robot a b) r = refl
receive_lem parse token (remove_robot a) r = refl
receive_lem parse token list_machines r = refl
receive_lem parse token (one_machine a) r = refl
receive_lem parse token (add_machine a) r = refl
receive_lem parse token (remove_machine a) r = refl
receive_lem parse token (renew_key a) r = refl
receive_lem parse token (list_processes a) r = refl
receive_lem parse token (one_process a) r = refl
receive_lem parse token (add_process a) r = refl
receive_lem parse token (change_process a b) r = refl
receive_lem parse token (upgrade_process a) r = refl
receive_lem parse token (remove_process a) r = refl
receive_lem parse token (list_jobs a b c) r = refl
receive_lem parse token (one_job a) r = refl
receive_lem parse token (add_job a) r = refl
receive_lem parse token (change_job a b) r = refl
receive_lem parse token (end_job_gently a) r = refl
receive_lem parse token (end_job a) r = refl
receive_lem parse token (end_job_now a) r = refl
receive_lem parse token (send_package a) r = refl
receive_lem parse token (list_packages a b c d) r = refl
receive_lem parse token (change_package a b) r = refl
receive_lem parse token (remove_package a) r = refl
receive_lem parse token list_triggers r = refl
receive_lem parse token (turn_on a) r = refl
receive_lem parse token (turn_off a) r = refl
receive_lem parse token (change_trigger a b) r = refl
receive_lem parse token (remove_trigger a) r = refl
receive_lem parse token (add_trigger a) r = refl

auth_out :
    (token : Option String)
    → is_empty (or_default token "") ≡ true
    → auth_headers token ≡ inl "Not authenticated"
unfolding auth_headers
auth_out token h = rw (h) refl

bearer_out :
    (token : Option String)
    → is_empty (or_default token "") ≡ true
    → bearer_headers token ≡ inl "Not authenticated"
unfolding bearer_headers
bearer_out token h = rw (h) refl

bearer_json_out :
    (token : Option String)
    → is_empty (or_default token "") ≡ true
    → bearer_json token ≡ inl "Not authenticated"
bearer_json_out token h = rw (bearer_out token h) refl

pub request_out :
    (parse : String → String ⊎ Json) (token : Option String) (op : Operation)
    → is_empty (or_default token "") ≡ true
    → (call_of parse token op).request ≡ inl "Not authenticated"
request_out parse token (list_assets a) h = ap (with_headers _) (auth_out token h)
request_out parse token (add_asset a) h = ap (with_headers _) (auth_out token h)
request_out parse token (change_asset a b) h = ap (with_headers _) (auth_out token h)
request_out parse token (remove_asset a) h = ap (with_headers _) (auth_out token h)
request_out parse token (list_robots a b) h = ap (with_headers _) (auth_out token h)
request_out parse token (add_robot a) h = ap (with_headers _) (auth_out token h)
request_out parse token (change_robot a b) h = ap (with_headers _) (auth_out token h)
request_out parse token (remove_robot a) h = ap (with_headers _) (auth_out token h)
request_out parse token list_machines h = ap (with_headers _) (auth_out token h)
request_out parse token (one_machine a) h = ap (with_headers _) (auth_out token h)
request_out parse token (add_machine a) h = ap (with_headers _) (auth_out token h)
request_out parse token (remove_machine a) h = ap (with_headers _) (auth_out token h)
request_out parse token (renew_key a) h = ap (with_headers _) (auth_out token h)
request_out parse token (list_processes a) h = ap (with_headers _) (auth_out token h)
request_out parse token (one_process a) h = ap (with_headers _) (auth_out token h)
request_out parse token (add_process a) h = ap (with_headers _) (auth_out token h)
request_out parse token (change_process a b) h = ap (with_headers _) (auth_out token h)
request_out parse token (upgrade_process a) h = ap (with_headers _) (auth_out token h)
request_out parse token (remove_process a) h = ap (with_headers _) (auth_out token h)
request_out parse token (list_jobs a b c) h = ap (with_headers _) (auth_out token h)
request_out parse token (one_job a) h = ap (with_headers _) (auth_out token h)
request_out parse token (add_job a) h = ap (with_headers _) (auth_out token h)
request_out parse token (change_job a b) h = ap (with_headers _) (auth_out token h)
request_out parse token (end_job_gently a) h = ap (with_headers _) (auth_out token h)
request_out parse token (end_job a) h = ap (with_headers _) (auth_out token h)
request_out parse token (end_job_now a) h = ap (with_headers _) (auth_out token h)
request_out parse token (send_package a) h = ap (with_headers _) (bearer_out token h)
request_out parse token (list_packages a b c d) h = ap (with_headers _) (bearer_out token h)
request_out parse token (change_package a b) h = ap (with_headers _) (bearer_json_out token h)
request_out parse token (remove_package a) h = ap (with_headers _) (bearer_out token h)
request_out parse token list_triggers h = ap (with_headers _) (auth_out token h)
request_out parse token (turn_on a) h = ap (with_headers _) (auth_out token h)
request_out parse token (turn_off a) h = ap (with_headers _) (auth_out token h)
request_out parse token (change_trigger a b) h = ap (with_headers _) (auth_out token h)
request_out parse token (remove_trigger a) h = ap (with_headers _) (auth_out token h)
request_out parse token (add_trigger a) h = ap (with_headers _) (auth_out token h)
