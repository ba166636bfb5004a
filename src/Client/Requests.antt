-- ===== src/Client/Requests.antt =====
-- The calls of the clients that need a token (api/assets.ts, robots.ts, machines.ts, processes.ts, jobs.ts,
-- packages.ts and triggers.ts): what each sends.
use bv_orchestrator.Client.Operations.{
  Operation, list_assets, add_asset, change_asset, remove_asset, list_robots, add_robot,
  change_robot, remove_robot, list_machines, one_machine, add_machine, remove_machine, renew_key,
  list_processes, one_process, add_process, change_process, upgrade_process, remove_process,
  list_jobs, one_job, add_job, change_job, end_job_gently, end_job, end_job_now, send_package,
  list_packages, change_package, remove_package, list_triggers, turn_on, turn_off, change_trigger,
  remove_trigger, add_trigger, call_of,
}
use bv_orchestrator.Client.{
  Body, no_body, json_body, file_body, ApiRequest, with_headers, auth_headers, bearer_headers,
  bearer_json,
}
use bv_orchestrator.Json.{Json}
use bv_orchestrator.Json.Case.{to_snake}
use bv_orchestrator.Queries.{Params}
use bv_orchestrator.Common.{
  ◌==◌, nat_eq, string_eq, if◌then◌else◌, or_default, is_some, ◌+++◌, is_empty, show_nat, String,
  ◌≡◌, refl, ◌⊎◌, inl, inr, Bool, true, false, not, ◌&&◌, Option, none, some, [], ◌∷◌,
}

-- the value of a header
abbrev pub header_of : String → Params → Option String
header_of k [] = none
header_of k ((j, v) ∷ hs) = if j == k then some v else header_of k hs

-- fetch refuses a GET with a body; a body of JSON is said to be one, and the type of a form is left to the browser.
abbrev pub body_fits : ApiRequest → Body → Bool
body_fits r no_body = true
body_fits r (json_body v) =
    not (r.method == "GET")
    && or_default (header_of "Content-Type" r.headers) "" == "application/json"
body_fits r (file_body f) = r.method == "POST" && not (is_some (header_of "Content-Type" r.headers))

-- The method and the path of the server's routes (the routers of the backend that these clients call).
abbrev pub endpoint : Operation → String × String
endpoint (list_assets a) = ("GET", "/api/assets/")
endpoint (add_asset a) = ("POST", "/api/assets/")
endpoint (change_asset a b) = ("PUT", "/api/assets/" +++ show_nat a)
endpoint (remove_asset a) = ("DELETE", "/api/assets/" +++ show_nat a)
endpoint (list_robots a b) = ("GET", "/api/robots/")
endpoint (add_robot a) = ("POST", "/api/robots/")
endpoint (change_robot a b) = ("PUT", "/api/robots/" +++ show_nat a)
endpoint (remove_robot a) = ("DELETE", "/api/robots/" +++ show_nat a)
endpoint list_machines = ("GET", "/api/machines")
endpoint (one_machine a) = ("GET", "/api/machines/" +++ show_nat a)
endpoint (add_machine a) = ("POST", "/api/machines")
endpoint (remove_machine a) = ("DELETE", "/api/machines/" +++ show_nat a)
endpoint (renew_key a) = ("POST", "/api/machines/" +++ show_nat a +++ "/regenerate-key")
endpoint (list_processes a) = ("GET", "/api/processes/")
endpoint (one_process a) = ("GET", "/api/processes/" +++ show_nat a)
endpoint (add_process a) = ("POST", "/api/processes/")
endpoint (change_process a b) = ("PUT", "/api/processes/" +++ show_nat a)
endpoint (upgrade_process a) = ("POST", "/api/processes/" +++ show_nat a +++ "/upgrade")
endpoint (remove_process a) = ("DELETE", "/api/processes/" +++ show_nat a)
endpoint (list_jobs a b c) = ("GET", "/api/jobs/")
endpoint (one_job a) = ("GET", "/api/jobs/" +++ show_nat a)
endpoint (add_job a) = ("POST", "/api/jobs/")
endpoint (change_job a b) = ("PUT", "/api/jobs/" +++ show_nat a)
endpoint (end_job_gently a) = ("POST", "/api/jobs/" +++ show_nat a +++ "/cancel")
endpoint (end_job a) = ("POST", "/api/jobs/" +++ show_nat a +++ "/stop")
endpoint (end_job_now a) = ("POST", "/api/jobs/" +++ show_nat a +++ "/kill")
endpoint (send_package a) = ("POST", "/api/packages/upload")
endpoint (list_packages a b c d) = ("GET", "/api/packages/")
endpoint (change_package a b) = ("PUT", "/api/packages/" +++ show_nat a)
endpoint (remove_package a) = ("DELETE", "/api/packages/" +++ show_nat a)
endpoint list_triggers = ("GET", "/api/triggers/")
endpoint (turn_on a) = ("POST", "/api/triggers/" +++ a +++ "/enable")
endpoint (turn_off a) = ("POST", "/api/triggers/" +++ a +++ "/disable")
endpoint (change_trigger a b) = ("PUT", "/api/triggers/" +++ a)
endpoint (remove_trigger a) = ("DELETE", "/api/triggers/" +++ a)
endpoint (add_trigger a) = ("POST", "/api/triggers/")

abbrev pub IsProper : Operation → String → ApiRequest → Type 0
IsProper op t r =
    (header_of "Authorization" r.headers ≡ some ("Bearer " +++ t))
    × (r.method ≡ (endpoint op).0)
    × (r.path ≡ (endpoint op).1)
    × (body_fits r r.body ≡ true)

abbrev pub SendsProper : Operation → String → String ⊎ ApiRequest → Type 0
SendsProper op t (inl e) = ⊥
SendsProper op t (inr r) = IsProper op t r

module _ (op : Operation) (t : String) (h : is_empty t ≡ false) (f : Params → ApiRequest) where
  auth_sends :
      IsProper op t
        (f (("Authorization", "Bearer " +++ t) ∷ ("Content-Type", "application/json") ∷ []))
      → SendsProper op t (with_headers f (auth_headers (some t)))
  unfolding auth_headers
  auth_sends p = rw (h) p

  bearer_sends :
      IsProper op t (f (("Authorization", "Bearer " +++ t) ∷ []))
      → SendsProper op t (with_headers f (bearer_headers (some t)))
  unfolding bearer_headers
  bearer_sends p = rw (h) p

  bearer_json_sends :
      IsProper op t
        (f (("Authorization", "Bearer " +++ t) ∷ ("Content-Type", "application/json") ∷ []))
      → SendsProper op t (with_headers f (bearer_json (some t)))
  unfolding bearer_headers
  bearer_json_sends p = rw (h) p

-- With a token that is not empty, each call of assets.ts, robots.ts, machines.ts, processes.ts, jobs.ts,
-- triggers.ts and of packages.ts (but the download and the signature of an entrypoint) sends a request with the
-- method and the path of its route, which carries the token and whose body a fetch may have and is described by its
-- type: none with GET, JSON as JSON, and a file without a type, which the browser adds.
pub call-SendsProper :
    (parse : String → String ⊎ Json) (t : String) (op : Operation)
    → is_empty t ≡ false
    → SendsProper op t (call_of parse (some t) op).request
unfolding to_snake
call-SendsProper parse t (list_assets a) h =
    auth_sends (list_assets a) t h _ (refl, refl, refl, refl)
call-SendsProper parse t (add_asset a) h = auth_sends (add_asset a) t h _ (refl, refl, refl, refl)
call-SendsProper parse t (change_asset a b) h =
    auth_sends (change_asset a b) t h _ (refl, refl, refl, refl)
call-SendsProper parse t (remove_asset a) h =
    auth_sends (remove_asset a) t h _ (refl, refl, refl, refl)
call-SendsProper parse t (list_robots a b) h =
    auth_sends (list_robots a b) t h _ (refl, refl, refl, refl)
call-SendsProper parse t (add_robot a) h = auth_sends (add_robot a) t h _ (refl, refl, refl, refl)
call-SendsProper parse t (change_robot a b) h =
    auth_sends (change_robot a b) t h _ (refl, refl, refl, refl)
call-SendsProper parse t (remove_robot a) h =
    auth_sends (remove_robot a) t h _ (refl, refl, refl, refl)
call-SendsProper parse t list_machines h = auth_sends list_machines t h _ (refl, refl, refl, refl)
call-SendsProper parse t (one_machine a) h =
    auth_sends (one_machine a) t h _ (refl, refl, refl, refl)
call-SendsProper parse t (add_machine a) h =
    auth_sends (add_machine a) t h _ (refl, refl, refl, refl)
call-SendsProper parse t (remove_machine a) h =
    auth_sends (remove_machine a) t h _ (refl, refl, refl, refl)
call-SendsProper parse t (renew_key a) h = auth_sends (renew_key a) t h _ (refl, refl, refl, refl)
call-SendsProper parse t (list_processes a) h =
    auth_sends (list_processes a) t h _ (refl, refl, refl, refl)
call-SendsProper parse t (one_process a) h =
    auth_sends (one_process a) t h _ (refl, refl, refl, refl)
call-SendsProper parse t (add_process a) h =
    auth_sends (add_process a) t h _ (refl, refl, refl, refl)
call-SendsProper parse t (change_process a b) h =
    auth_sends (change_process a b) t h _ (refl, refl, refl, refl)
call-SendsProper parse t (upgrade_process a) h =
    auth_sends (upgrade_process a) t h _ (refl, refl, refl, refl)
call-SendsProper parse t (remove_process a) h =
    auth_sends (remove_process a) t h _ (refl, refl, refl, refl)
call-SendsProper parse t (list_jobs a b c) h =
    auth_sends (list_jobs a b c) t h _ (refl, refl, refl, refl)
call-SendsProper parse t (one_job a) h = auth_sends (one_job a) t h _ (refl, refl, refl, refl)
call-SendsProper parse t (add_job a) h = auth_sends (add_job a) t h _ (refl, refl, refl, refl)
call-SendsProper parse t (change_job a b) h =
    auth_sends (change_job a b) t h _ (refl, refl, refl, refl)
call-SendsProper parse t (end_job_gently a) h =
    auth_sends (end_job_gently a) t h _ (refl, refl, refl, refl)
call-SendsProper parse t (end_job a) h = auth_sends (end_job a) t h _ (refl, refl, refl, refl)
call-SendsProper parse t (end_job_now a) h =
    auth_sends (end_job_now a) t h _ (refl, refl, refl, refl)
call-SendsProper parse t (send_package a) h =
    bearer_sends (send_package a) t h _ (refl, refl, refl, refl)
call-SendsProper parse t (list_packages a b c d) h =
    bearer_sends (list_packages a b c d) t h _ (refl, refl, refl, refl)
call-SendsProper parse t (change_package a b) h =
    bearer_json_sends (change_package a b) t h _ (refl, refl, refl, refl)
call-SendsProper parse t (remove_package a) h =
    bearer_sends (remove_package a) t h _ (refl, refl, refl, refl)
call-SendsProper parse t list_triggers h = auth_sends list_triggers t h _ (refl, refl, refl, refl)
call-SendsProper parse t (turn_on a) h = auth_sends (turn_on a) t h _ (refl, refl, refl, refl)
call-SendsProper parse t (turn_off a) h = auth_sends (turn_off a) t h _ (refl, refl, refl, refl)
call-SendsProper parse t (change_trigger a b) h =
    auth_sends (change_trigger a b) t h _ (refl, refl, refl, refl)
call-SendsProper parse t (remove_trigger a) h =
    auth_sends (remove_trigger a) t h _ (refl, refl, refl, refl)
call-SendsProper parse t (add_trigger a) h =
    auth_sends (add_trigger a) t h _ (refl, refl, refl, refl)
