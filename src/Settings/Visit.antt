-- ===== src/Settings/Visit.antt =====
-- A visit to the settings' page (SettingsPage.tsx): events in any order.
use bv_orchestrator.Settings.{EmailSettings, with_defaults, validate_email_config}
use bv_orchestrator.Settings.Page.{
  SettingsPage, SettingsAnswer, came, failed, load, save_start, save_finish, test_start,
  test_finish, EmailEdit, set_enabled, set_tls, set_ssl, type_host, type_port, type_username,
  type_from, edit, target_of,
}
use bv_orchestrator.Common.{
  nat_eq, string_eq, if◌then◌else◌, if_intro, is_some, Bool-cases, Option-cases, every, is_empty,
  String, ◌≡◌, refl, inl, inr, Bool, true, false, not, ◌&&◌, ◌||◌, Option, none, some, List, [],
  ◌∷◌, arith,
}

-- What happens to the page. An answer comes only to a request that is under way; a button that is disabled
-- and an input that is not shown do nothing.
pub data SettingsEvent : Type 0 where
  loaded saved : SettingsAnswer → SettingsEvent
  general_toggled email_toggled save_clicked test_clicked success_expired : SettingsEvent
  timezone_chosen password_typed recipient_typed : (value : String) → SettingsEvent
  edited : EmailEdit → SettingsEvent
  tested : (error : Option String) → SettingsEvent

-- whether the inputs of the email settings are shown
abbrev pub is_email_shown : SettingsPage → Bool
is_email_shown v = not v.collapsed_email && not v.loading

unfoldable pub step : SettingsPage → SettingsEvent → SettingsPage
unfolding load save_start save_finish test_start test_finish edit
step v (loaded a) = if v.loading then load a v else v
step v (saved a) = if v.saving then save_finish a v else v
step v general_toggled = record v { collapsed_general = not v.collapsed_general }
step v email_toggled = record v { collapsed_email = not v.collapsed_email }
step v save_clicked = if v.saving || v.loading then v else (save_start v).1
step v test_clicked = if is_email_shown v && not v.testing then (test_start v).1 else v
step v success_expired = record v { success = none }
step v (timezone_chosen tz) =
    if v.collapsed_general || v.loading then v else record v { timezone = tz }
step v (password_typed s) = if is_email_shown v then record v { email_password = s } else v
step v (recipient_typed s) = if is_email_shown v then record v { test_recipient = s } else v
step v (edited e) =
    if is_email_shown v then record v { email_settings = edit e v.email_settings } else v
step v (tested e) = if v.testing then test_finish e v else v

unfoldable pub run : SettingsPage → List SettingsEvent → SettingsPage
unfolding step
run v [] = v
run v (e ∷ es) = run (step v e) es

-- not TLS and SSL at once
abbrev pub is_secure : EmailSettings → Bool
is_secure s = not (s.smtp_use_tls && s.smtp_use_ssl)

-- an answer of a server that keeps no such settings
abbrev pub is_sane : SettingsEvent → Bool
is_sane (loaded (came timezone email)) = is_secure (with_defaults email)
is_sane (saved (came timezone email)) = is_secure (with_defaults email)
is_sane _ = true

-- The page is not busy loading and saving at once, tells nothing while it is busy, and never both an error and
-- a success.
abbrev pub is_calm : SettingsPage → Bool
is_calm v =
    not (v.loading && v.saving)
    && not ((v.loading || v.saving) && (is_some v.error || is_some v.success))
    && not (is_some v.error && is_some v.success)

abbrev pub IsCalm : SettingsPage → Type 0
IsCalm v = (is_secure v.email_settings ≡ true) × (is_calm v ≡ true)

edit-secure : (e : EmailEdit) (s : EmailSettings) → is_secure s ≡ true → is_secure (edit e s) ≡ true
unfolding edit
edit-secure (set_enabled b) s h = h
edit-secure (set_tls true) s h = refl
edit-secure (set_tls false) s h = refl
edit-secure (set_ssl true) s h = refl
edit-secure (set_ssl false) s h = ground arith
edit-secure (type_host x) s h = h
edit-secure (type_port x) s h = h
edit-secure (type_username x) s h = h
edit-secure (type_from x) s h = h

load-IsCalm :
    (a : SettingsAnswer) (v : SettingsPage)
    → is_sane (loaded a) ≡ true
    → v.loading ≡ true
    → IsCalm v
    → IsCalm (load a v)
unfolding load
load-IsCalm (came tz email) v sane on (secure, calm) = (sane, ground arith)
load-IsCalm (failed e) v sane on (secure, calm) = (secure, ground arith)

save_finish-IsCalm :
    (a : SettingsAnswer) (v : SettingsPage)
    → is_sane (saved a) ≡ true
    → v.saving ≡ true
    → IsCalm v
    → IsCalm (save_finish a v)
unfolding save_finish
save_finish-IsCalm (came tz email) v sane on (secure, calm) = (sane, ground arith)
save_finish-IsCalm (failed e) v sane on (secure, calm) = (secure, ground arith)

save_start-IsCalm :
    (v : SettingsPage) → (v.saving || v.loading) ≡ false → IsCalm v → IsCalm (save_start v).1
unfolding save_start
save_start-IsCalm v off (secure, calm) =
    elim (Option-cases (validate_email_config v.email_settings)) [
      | inl fit ↦ rw (fit) (secure, ground arith)
      | inr (e, unfit) ↦ rw (unfit) (secure, ground arith)
    ]

test_start-IsCalm : (v : SettingsPage) → IsCalm v → IsCalm (test_start v).1
unfolding test_start
test_start-IsCalm v h = elim (Bool-cases (not v.email_settings.enabled)) [
  | inl off ↦ rw (off) h
  | inr on ↦ elim (Bool-cases (is_empty (target_of v))) [
    | inl nowhere ↦ rw (on, nowhere) h
    | inr there ↦ rw (on, there) h
  ]
]

test_finish-IsCalm : (e : Option String) (v : SettingsPage) → IsCalm v → IsCalm (test_finish e v)
unfolding test_finish
test_finish-IsCalm none v h = h
test_finish-IsCalm (some e) v h = h

if_cases :
    (P : SettingsPage → Type 0) (b : Bool) {x y : SettingsPage}
    → (b ≡ true → P x)
    → (b ≡ false → P y)
    → P (if b then x else y)
if_cases P true p q = p refl
if_cases P false p q = q refl

step-IsCalm :
    (v : SettingsPage) (e : SettingsEvent) → is_sane e ≡ true → IsCalm v → IsCalm (step v e)
unfolding step
step-IsCalm v (loaded a) sane h =
    if_cases IsCalm v.loading (λ on. load-IsCalm a v sane on h) (λ off. h)
step-IsCalm v (saved a) sane h =
    if_cases IsCalm v.saving (λ on. save_finish-IsCalm a v sane on h) (λ off. h)
step-IsCalm v general_toggled sane h = h
step-IsCalm v email_toggled sane h = h
step-IsCalm v save_clicked sane h =
    if_cases IsCalm (v.saving || v.loading) (λ busy. h) (λ off. save_start-IsCalm v off h)
step-IsCalm v test_clicked sane h =
    if_intro IsCalm (is_email_shown v && not v.testing) (test_start-IsCalm v h) h
step-IsCalm v success_expired sane (secure, calm) = (secure, ground arith)
step-IsCalm v (timezone_chosen tz) sane h = if_intro IsCalm (v.collapsed_general || v.loading) h h
step-IsCalm v (password_typed s) sane h = if_intro IsCalm (is_email_shown v) h h
step-IsCalm v (recipient_typed s) sane h = if_intro IsCalm (is_email_shown v) h h
step-IsCalm v (edited e) sane (secure, calm) =
    if_intro IsCalm (is_email_shown v) (edit-secure e v.email_settings secure, calm) (secure, calm)
step-IsCalm v (tested e) sane h = if_intro IsCalm v.testing (test_finish-IsCalm e v h) h

-- Whatever is typed, clicked and answered, in whatever order, with a server that does not keep TLS and SSL at
-- once: the form never has both, and the page never tells both an error and a success, nor either of them
-- while it loads or saves.
pub run-IsCalm :
    (es : List SettingsEvent) (v : SettingsPage)
    → every is_sane es ≡ true
    → IsCalm v
    → IsCalm (run v es)
unfolding run
run-IsCalm [] v sane h = h
run-IsCalm (e ∷ es) v sane h =
    run-IsCalm es (step v e) (ground arith) (step-IsCalm v e (ground arith) h)
