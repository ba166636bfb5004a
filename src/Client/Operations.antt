-- ===== src/Client/Operations.antt =====
-- The calls of the clients that need a token (api/assets.ts, robots.ts, machines.ts, processes.ts, jobs.ts,
-- packages.ts and triggers.ts), but for the download of a package, with their arguments.
use bv_orchestrator.Trigger.Modal.{Payload}
use bv_orchestrator.Client.Triggers.{
  fetch_triggers, enable_trigger, disable_trigger, update_trigger, delete_trigger, create_trigger,
}
use bv_orchestrator.Client.Assets.{fetch_assets, create_asset, update_asset, delete_asset}
use bv_orchestrator.Client.Robots.{fetch_robots, create_robot, update_robot, delete_robot}
use bv_orchestrator.Client.Machines.{
  fetch_machines, get_machine, create_machine, delete_machine, regenerate_machine_key,
}
use bv_orchestrator.Client.Processes.{
  fetch_processes, fetch_process, create_process, update_process, upgrade_process_to_latest,
  delete_process,
}
use bv_orchestrator.Client.Jobs.{
  fetch_jobs, fetch_job, create_job, update_job, cancel_job, stop_job, kill_job,
}
use bv_orchestrator.Client.Packages.{upload_package, fetch_packages, update_package, delete_package}
use bv_orchestrator.Client.{Call}
use bv_orchestrator.Json.{Json}
use bv_orchestrator.Common.{nat_eq, string_eq, ℕ, String, ◌⊎◌, Bool, Option}

-- a call, with its arguments
pub data Operation : Type 0 where
  list_assets : String → Operation
  add_asset : Json → Operation
  change_asset : ℕ → Json → Operation
  remove_asset : ℕ → Operation
  list_robots : String → String → Operation
  add_robot : Json → Operation
  change_robot : ℕ → Json → Operation
  remove_robot : ℕ → Operation
  list_machines : Operation
  one_machine : ℕ → Operation
  add_machine : Json → Operation
  remove_machine : ℕ → Operation
  renew_key : ℕ → Operation
  list_processes : String → Operation
  one_process : ℕ → Operation
  add_process : Json → Operation
  change_process : ℕ → Json → Operation
  upgrade_process : ℕ → Operation
  remove_process : ℕ → Operation
  list_jobs : String → ℕ → ℕ → Operation
  one_job : ℕ → Operation
  add_job : Json → Operation
  change_job : ℕ → Json → Operation
  end_job_gently : ℕ → Operation
  end_job : ℕ → Operation
  end_job_now : ℕ → Operation
  send_package : String → Operation
  list_packages : String → Bool → String → String → Operation
  change_package : ℕ → Json → Operation
  remove_package : ℕ → Operation
  list_triggers : Operation
  turn_on : String → Operation
  turn_off : String → Operation
  change_trigger : String → Payload → Operation
  remove_trigger : String → Operation
  add_trigger : Payload → Operation

abbrev pub call_of : (String → String ⊎ Json) → Option String → Operation → Call (Option Json)
call_of parse token (list_assets a) = fetch_assets parse token a
call_of parse token (add_asset a) = create_asset parse token a
call_of parse token (change_asset a b) = update_asset parse token a b
call_of parse token (remove_asset a) = delete_asset parse token a
call_of parse token (list_robots a b) = fetch_robots parse token a b
call_of parse token (add_robot a) = create_robot parse token a
call_of parse token (change_robot a b) = update_robot parse token a b
call_of parse token (remove_robot a) = delete_robot parse token a
call_of parse token list_machines = fetch_machines parse token
call_of parse token (one_machine a) = get_machine parse token a
call_of parse token (add_machine a) = create_machine parse token a
call_of parse token (remove_machine a) = delete_machine parse token a
call_of parse token (renew_key a) = regenerate_machine_key parse token a
call_of parse token (list_processes a) = fetch_processes parse token a
call_of parse token (one_process a) = fetch_process parse token a
call_of parse token (add_process a) = create_process parse token a
call_of parse token (change_process a b) = update_process parse token a b
call_of parse token (upgrade_process a) = upgrade_process_to_latest parse token a
call_of parse token (remove_process a) = delete_process parse token a
call_of parse token (list_jobs a b c) = fetch_jobs parse token a b c
call_of parse token (one_job a) = fetch_job parse token a
call_of parse token (add_job a) = create_job parse token a
call_of parse token (change_job a b) = update_job parse token a b
call_of parse token (end_job_gently a) = cancel_job parse token a
call_of parse token (end_job a) = stop_job parse token a
call_of parse token (end_job_now a) = kill_job parse token a
call_of parse token (send_package a) = upload_package parse token a
call_of parse token (list_packages a b c d) = fetch_packages parse token a b c d
call_of parse token (change_package a b) = update_package parse token a b
call_of parse token (remove_package a) = delete_package parse token a
call_of parse token list_triggers = fetch_triggers parse token
call_of parse token (turn_on a) = enable_trigger parse token a
call_of parse token (turn_off a) = disable_trigger parse token a
call_of parse token (change_trigger a b) = update_trigger parse token a b
call_of parse token (remove_trigger a) = delete_trigger parse token a
call_of parse token (add_trigger a) = create_trigger parse token a
