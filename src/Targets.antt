-- ===== src/Targets.antt =====
-- main.tsx: which page a hash shows, and the redirects.
use bv_orchestrator.Common.Number.{Number, is_finite, to_number}
use bv_orchestrator.Common.Prefix.{starts_with}
use bv_orchestrator.Common.{
  ◌==◌, nat_eq, string_eq, if◌then◌else◌, or_default, get_elem?, any, is_empty, or_text, text_or,
  trim, includes, split, ℕ, zero, suc, String, Bool, true, false, not, ◌&&◌, ◌||◌, Option, none,
  some, List, [], ◌∷◌,
}

pub data Tab : Type 0 where
  processes jobs triggers logs : Tab

pub data Page : Type 0 where
  login_success login sdk_auth logged_out forgot_password reset_password accept_invite : Page
  my_account dashboard assets packages machines robots all_jobs manage_access audit : Page
  credential_stores settings queues queue_items : Page
  job_logs : Number → String → Page
  automations : (active shown : Tab) → Page

-- `return <P />`, `return renderProtected(<P />)`, `window.location.hash = …; return null`, and the
-- end of the chain.
pub data Target : Type 0 where
  plain guarded : Page → Target
  redirect : String → Target
  unknown : Target

unfoldable pub normalize_hash : String → String
unfolding trim
normalize_hash h = or_text (trim (or_text h "#/")) "#/"

abbrev pub public_route_prefixes : List String
public_route_prefixes =
    "#/login" ∷ "#/forgot-password" ∷ "#/reset-password" ∷ "#/accept-invite" ∷ "#/sdk-auth"
    ∷ "#/logged-out" ∷ "#/login-success" ∷ []

abbrev pub protected_route_prefixes : List String
protected_route_prefixes =
    "#/dashboard" ∷ "#/assets" ∷ "#/automations" ∷ "#/automations/processes" ∷ "#/automations/jobs"
    ∷ "#/automations/triggers" ∷ "#/automations/logs" ∷ "#/processes" ∷ "#/packages" ∷ "#/machines"
    ∷ "#/robots" ∷ "#/jobs" ∷ "#/manage-access" ∷ "#/access" ∷ "#/access/users" ∷ "#/access/invites"
    ∷ "#/audit" ∷ "#/credential-stores" ∷ "#/logs" ∷ "#/settings" ∷ "#/queues" ∷ "#/queue-items"
    ∷ "#/triggers" ∷ "#/me" ∷ "#/me/account" ∷ "#/me/security" ∷ []

abbrev pub has_base : String → String → Bool
has_base route base = route == base || starts_with route base

unfoldable pub is_public_route : String → Bool
is_public_route route =
    if route == "#/" || route == "#" then true else any (has_base route) public_route_prefixes

unfoldable pub is_protected_route : String → Bool
is_protected_route route =
    if is_public_route route then false else any (has_base route) protected_route_prefixes

-- `const parts = route.replace('#/jobs/', '').split('/')` and the page of a job's log
unfoldable pub job_logs_page : List String → Option Page
unfolding to_number
job_logs_page parts =
    let job_id = to_number (or_default (get_elem? parts 0) "") in
    let execution_id = text_or (get_elem? parts 2) (or_default (get_elem? parts 1) "") in
    if is_finite job_id && not (is_empty execution_id)
    then some (job_logs job_id execution_id)
    else none

abbrev pub drop_chars : ℕ → String → String
drop_chars zero s = s
drop_chars (suc n) String.[] = ""
drop_chars (suc n) (String.◌∷◌ c s) = drop_chars n s

-- The text that is replaced stands at the beginning.
unfoldable pub job_logs_of : String → Option Page
unfolding job_logs_page split
job_logs_of route =
    if starts_with route "#/jobs/" && includes route "/logs/"
    then job_logs_page (split b'/' (drop_chars 7 route))
    else none

-- The last tests of the chain.
unfoldable pub automations_target : String → Target
automations_target route =
    if starts_with route "#/automations/processes"
    then guarded (automations processes processes)
    else if starts_with route "#/automations/jobs"
    then guarded (automations jobs jobs)
    else if starts_with route "#/automations/triggers"
    then guarded (automations triggers triggers)
    else if starts_with route "#/automations/logs"
    then guarded (automations (if includes route "jobId=" then jobs else logs) logs)
    else if route == "#/settings"
    then guarded settings
    else if route == "#/queues"
    then guarded queues
    else if starts_with route "#/queue-items"
    then guarded queue_items
    else unknown

-- The tests after the job logs.
unfoldable pub jobs_target : String → Target
unfolding automations_target
jobs_target route =
    if starts_with route "#/jobs"
    then guarded all_jobs
    else if route == "#/manage-access"
        || starts_with route "#/access/users"
        || starts_with route "#/access/invites"
    then guarded manage_access
    else if route == "#/audit"
    then guarded audit
    else if route == "#/credential-stores"
    then guarded credential_stores
    else automations_target route

-- The tests after the redirects.
unfoldable pub named_target : String → Target
unfolding job_logs_of jobs_target
named_target route =
    if route == "#/packages"
    then guarded packages
    else if route == "#/machines"
    then guarded machines
    else if route == "#/robots"
    then guarded robots
    else elim (job_logs_of route) [ some p ↦ guarded p | none ↦ jobs_target route ]

-- The first guarded pages and the redirects of the old routes.
unfoldable pub main_target : String → Target
unfolding named_target
main_target route =
    if route == "#/dashboard"
    then guarded dashboard
    else if route == "#/assets"
    then guarded assets
    else if route == "#/processes"
    then redirect "#/automations/processes"
    else if route == "#/jobs"
    then redirect "#/automations/jobs"
    else if route == "#/triggers"
    then redirect "#/automations/triggers"
    else if route == "#/logs"
    then redirect "#/automations/logs"
    else if route == "#/automations"
    then redirect "#/automations/processes"
    else named_target route

-- The chain of tests from the login pages on.
unfoldable pub target : String → Target
unfolding main_target
target route =
    if route == "#/login-success"
    then plain login_success
    else if starts_with route "#/login"
    then plain login
    else if starts_with route "#/sdk-auth"
    then plain sdk_auth
    else if route == "#/logged-out"
    then plain logged_out
    else if starts_with route "#/forgot-password"
    then plain forgot_password
    else if starts_with route "#/reset-password"
    then plain reset_password
    else if starts_with route "#/accept-invite"
    then plain accept_invite
    else if route == "#/me" || starts_with route "#/me/"
    then guarded my_account
    else main_target route
