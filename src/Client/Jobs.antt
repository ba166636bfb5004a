-- ===== src/Client/Jobs.antt =====
-- api/jobs.ts: the calls of the jobs.
use bv_orchestrator.Client.Decode.{else_null}
use bv_orchestrator.Json.{Json, obj, end, prop, get, non_null, truthy?}
use bv_orchestrator.Queries.{Params, text_param}
use bv_orchestrator.Client.{
  Call, with_headers, auth_headers, without_body, with_body, given_prop, read_detailed,
}
use bv_orchestrator.Common.{
  ◌==◌, nat_eq, string_eq, if◌then◌else◌, ◌+++◌, show_nat, ℕ, String, ◌⊎◌, Option, none, [], ◌∷◌,
}

-- `if (id) qs.set(k, String(id))`
abbrev id_param : String → ℕ → Params → Params
id_param k id ps = if id == 0 then ps else (k, show_nat id) ∷ ps

-- the body of `createJob`
abbrev pub new_job : Json → Json
new_job payload = obj (
    given_prop "process_id" (get "processId" payload) (
      prop "robot_id" (else_null (get "robotId" payload))
        (given_prop "parameters" (non_null (get "parameters" payload)) end)))

abbrev if_truthy : Option Json → Option Json
if_truthy v = if truthy? v then v else none

-- the body of `updateJob`
abbrev pub job_changes : Json → Json
job_changes payload = obj (
    given_prop "status" (if_truthy (get "status" payload)) (
      given_prop "robot_id" (get "robotId" payload) (
        given_prop "result" (get "result" payload)
          (given_prop "error_message" (get "errorMessage" payload) end))))

module _ (parse : String → String ⊎ Json) (token : Option String) where
  -- `fetchJobs`; a status that is missing is "", and an id that is missing is 0, which is no more sent
  abbrev pub fetch_jobs : String → ℕ → ℕ → Call (Option Json)
  fetch_jobs status process_id robot_id = record {
    request =
        with_headers
          (without_body "GET" "/api/jobs/" (
            text_param "status" status
              (id_param "process_id" process_id (id_param "robot_id" robot_id []))))
          (auth_headers token);
    receive = read_detailed parse;
  }

  abbrev pub fetch_job : ℕ → Call (Option Json)
  fetch_job id = record {
    request =
        with_headers (without_body "GET" ("/api/jobs/" +++ show_nat id) []) (auth_headers token);
    receive = read_detailed parse;
  }

  abbrev pub create_job : Json → Call (Option Json)
  create_job payload = record {
    request = with_headers (with_body "POST" "/api/jobs/" (new_job payload)) (auth_headers token);
    receive = read_detailed parse;
  }

  abbrev pub update_job : ℕ → Json → Call (Option Json)
  update_job id payload = record {
    request =
        with_headers (with_body "PUT" ("/api/jobs/" +++ show_nat id) (job_changes payload))
          (auth_headers token);
    receive = read_detailed parse;
  }

  abbrev pub cancel_job : ℕ → Call (Option Json)
  cancel_job id = record {
    request =
        with_headers (without_body "POST" ("/api/jobs/" +++ show_nat id +++ "/cancel") [])
          (auth_headers token);
    receive = read_detailed parse;
  }

  abbrev pub stop_job : ℕ → Call (Option Json)
  stop_job id = record {
    request =
        with_headers (without_body "POST" ("/api/jobs/" +++ show_nat id +++ "/stop") [])
          (auth_headers token);
    receive = read_detailed parse;
  }

  abbrev pub kill_job : ℕ → Call (Option Json)
  kill_job id = record {
    request =
        with_headers (without_body "POST" ("/api/jobs/" +++ show_nat id +++ "/kill") [])
          (auth_headers token);
    receive = read_detailed parse;
  }
