-- ===== src/Route/Protected.antt =====
-- Every page behind `renderProtected` belongs to a protected route (main.tsx).
use bv_orchestrator.Route.Prefixes.{is_guarded_base, is_protected_of_base}
use bv_orchestrator.Common.Prefix.{starts_with, clash, starts_with_self}
use bv_orchestrator.Targets.{
  Page, manage_access, audit, credential_stores, my_account, login_success, login, sdk_auth,
  logged_out, forgot_password, reset_password, accept_invite, Target, plain, guarded, redirect,
  unknown, is_protected_route, job_logs_of, automations_target, jobs_target, named_target,
  main_target, target,
}
use bv_orchestrator.Common.{
  ◌==◌, nat_eq, string_eq, if◌then◌else◌, String, ◌≡◌, refl, ap, Bool, true, false, ◌||◌, Option,
  none, some, eq_iff, arith,
}

-- What is only for authenticated users: a guarded page, or a redirect to one.
abbrev pub is_private : Target → Bool
is_private (guarded p) = true
is_private (redirect to) = true
is_private _ = false

-- A target that is private only if the route is protected.
abbrev Guards : String → Target → Type 0
Guards route t = (u : Target) → t ≡ u → is_private u ≡ true → is_protected_route route ≡ true

module _ (route : String) where
  -- One test of the chain.
  split_test :
      (b : Bool) {t u : Target}
      → (b ≡ true → Guards route t)
      → Guards route u
      → Guards route (if b then t else u)
  split_test true f g = f refl
  split_test false f g = g

  not_private : (t : Target) → is_private t ≡ false → Guards route t
  not_private t h u e k = absurd (ground (arith, ap is_private e))

  by_base :
      (base : String)
      → is_guarded_base base ≡ true
      → {t : Target} → starts_with route base ≡ true
      → Guards route t
  by_base base h k u e p = is_protected_of_base route base h k

  by_name :
      (base : String)
      → is_guarded_base base ≡ true
      → {t : Target} → (route == base) ≡ true
      → Guards route t
  by_name base h k = by_base base h (rw ((eq_iff route base).0 k) (starts_with_self base))

  automations_target-Guards : Guards route (automations_target route)
  unfolding automations_target starts_with clash
  automations_target-Guards = split_test _ (by_base "#/automations/processes" refl) (
      split_test _ (by_base "#/automations/jobs" refl) (
        split_test _ (by_base "#/automations/triggers" refl) (
          split_test _ (by_base "#/automations/logs" refl) (
            split_test _ (by_name "#/settings" refl) (
              split_test _ (by_name "#/queues" refl)
                (split_test _ (by_base "#/queue-items" refl) (not_private unknown refl)))))))

  or_test :
      (a b : Bool) {t : Target}
      → (a ≡ true → Guards route t)
      → (b ≡ true → Guards route t)
      → (a || b) ≡ true
      → Guards route t
  or_test true b f g h = f refl
  or_test false b f g h = g h

  split_option :
      (o : Option Page) {u : Target}
      → ((q : Page) → o ≡ some q → Guards route (guarded q))
      → Guards route u
      → Guards route (elim o [ some q ↦ guarded q | none ↦ u ])
  split_option none f g = g
  split_option (some q) f g = f q refl

  jobs_target-Guards : Guards route (jobs_target route)
  unfolding jobs_target starts_with clash
  jobs_target-Guards = split_test _ (by_base "#/jobs" refl) (
      split_test
        (route == "#/manage-access"
          || starts_with route "#/access/users"
          || starts_with route "#/access/invites")
        {t = guarded manage_access}
        (or_test _ _ {t = guarded manage_access}
          (or_test _ _ {t = guarded manage_access} (by_name "#/manage-access" refl)
            (by_base "#/access/users" refl))
          (by_base "#/access/invites" refl))
        (split_test (route == "#/audit") {t = guarded audit} (by_name "#/audit" refl) (
          split_test (route == "#/credential-stores") {t = guarded credential_stores}
            (by_name "#/credential-stores" refl) automations_target-Guards)))

  job_logs_of-starts_with :
      (q : Page) → job_logs_of route ≡ some q → starts_with route "#/jobs/" ≡ true
  unfolding job_logs_of
  job_logs_of-starts_with q e = ground arith

  named_target-Guards : Guards route (named_target route)
  unfolding named_target starts_with clash
  named_target-Guards = split_test _ (by_name "#/packages" refl) (
      split_test _ (by_name "#/machines" refl) (
        split_test _ (by_name "#/robots" refl) (
          split_option _ (λ q e. by_base "#/jobs/" refl (job_logs_of-starts_with q e))
            jobs_target-Guards)))

  main_target-Guards : Guards route (main_target route)
  unfolding main_target starts_with clash
  main_target-Guards = split_test _ (by_name "#/dashboard" refl) (
      split_test _ (by_name "#/assets" refl) (
        split_test _ (by_name "#/processes" refl) (
          split_test _ (by_name "#/jobs" refl) (
            split_test _ (by_name "#/triggers" refl) (
              split_test _ (by_name "#/logs" refl)
                (split_test _ (by_name "#/automations" refl) named_target-Guards))))))

  plain_first :
      (b : Bool) (q : Page) {u : Target} → Guards route u → Guards route (if b then plain q else u)
  plain_first b q g = split_test b (λ k. not_private (plain q) refl) g

  target-Guards : Guards route (target route)
  unfolding target starts_with clash
  target-Guards = plain_first (route == "#/login-success") login_success (
      plain_first (starts_with route "#/login") login (
        plain_first (starts_with route "#/sdk-auth") sdk_auth (
          plain_first (route == "#/logged-out") logged_out (
            plain_first (starts_with route "#/forgot-password") forgot_password (
              plain_first (starts_with route "#/reset-password") reset_password (
                plain_first (starts_with route "#/accept-invite") accept_invite (
                  split_test (route == "#/me" || starts_with route "#/me/")
                    (or_test _ _ {t = guarded my_account} (by_name "#/me" refl)
                      (by_base "#/me/" refl))
                    main_target-Guards)))))))

  -- A page or redirect for authenticated users alone belongs to a protected route.
  pub target-is_protected : is_private (target route) ≡ true → is_protected_route route ≡ true
  target-is_protected = target-Guards (target route) refl
