-- ===== src/Route/Tests.antt =====
-- The router on concrete routes (main.tsx).
use bv_orchestrator.Common.Prefix.{starts_with}
use bv_orchestrator.Targets.{
  logs, all_jobs, job_logs, jobs, automations, login, my_account, guarded, redirect, unknown,
  target, normalize_hash, is_public_route, is_protected_route,
}
use bv_orchestrator.Route.{
  navigate, remember_return_to, render_target, loading, authenticated, unauthenticated, page,
  Router, render, round, settle, on_hash_change,
}
use bv_orchestrator.Route.Laws.{is_open, render-is_open, settle-Shows, settle-after_login}
use bv_orchestrator.Route.Protected.{is_private}
use bv_orchestrator.Route.Rounds.{Shows}
use bv_orchestrator.Common.Number.{int}
use bv_orchestrator.Common.Int.{pos}
use bv_orchestrator.Common.{nat_eq, string_eq, String, ◌≡◌, refl, ◌≢◌, true, false, none, some}

app : Unit {0}
unfolding render settle target normalize_hash is_public_route is_protected_route on_hash_change
    round starts_with navigate remember_return_to render_target
app = tt

abbrev visitor : String → Router
visitor route = record { status = unauthenticated; route = route; hash = route; return_to = none }

target_tests :
    (target "#/jobs/12/logs/ab-c" ≡ guarded (job_logs (int (pos 12)) "ab-c"))
    × (target "#/jobs/x/logs/ab-c" ≡ guarded all_jobs)
    × (target "#/jobs" ≡ redirect "#/automations/jobs")
    × (target "#/me/security" ≡ guarded my_account)
    × (target "#/nowhere" ≡ unknown)
    × (target "#/automations/logs?jobId=3" ≡ guarded (automations jobs logs))
unfolding app
target_tests = (refl, refl, refl, refl, refl, refl)

normalize_tests : (normalize_hash "" ≡ "#/") × (normalize_hash " #/jobs " ≡ "#/jobs")
unfolding app
normalize_tests = (refl, refl)

-- A protected route without a session: the router ends at the login page and remembers the route.
settle_test :
    settle 4 (visitor "#/queues")
    ≡ some (
      page login,
      record {
        status = unauthenticated;
        route = "#/login";
        hash = "#/login";
        return_to = some "#/queues";
      },
    )
unfolding app
settle_test = refl

visitor_out : unauthenticated ≢ authenticated
visitor_out e = cc

visitor_known : unauthenticated ≢ loading
visitor_known e = cc

visitor_at_login : (render (visitor "#/login")).0 ≡ page login
unfolding app
visitor_at_login = refl

render-is_open_example : (is_open login ≡ true) × (is_protected_route "#/login" ≡ false)
render-is_open_example = render-is_open (visitor "#/login") login visitor_out visitor_at_login

queues_rested : normalize_hash "#/queues" ≡ "#/queues"
unfolding app
queues_rested = refl

settle-Shows_example : Shows (settle 4 (visitor "#/queues"))
settle-Shows_example = settle-Shows 0 (visitor "#/queues") queues_rested visitor_known

queues_protected : is_protected_route "#/queues" ≡ true
unfolding app
queues_protected = refl

settle-after_login_example :
    let sent = on_hash_change (round (visitor "#/queues")).1 in
    (sent.route ≡ "#/login")
    × (settle 5 (record sent { status = authenticated })
        ≡ settle 4 (record {
          status = authenticated;
          route = "#/queues";
          hash = "#/queues";
          return_to = none;
        }))
settle-after_login_example =
    settle-after_login 4 (visitor "#/queues") refl queues_protected queues_rested refl

jobs_private : is_private (target "#/jobs/12/logs/ab-c") ≡ true
unfolding app
jobs_private = refl
