-- ===== src/Login/Once.antt =====
-- The page of the SDK over its whole life (SdkAuthPage.tsx): its effect runs again, answers come, and the
-- rest of the program changes the session and the hash in between.
use bv_orchestrator.Login.{Visit}
use bv_orchestrator.Login.Sdk.{
  settle_confirm, Sdk, opened, Confirmation, ConfirmReply, start, start_with, confirm_start,
  confirm_finish, confirm_error,
}
use bv_orchestrator.Common.{
  ◌==◌, nat_eq, string_eq, if◌then◌else◌, Bool-cases, is_empty, ℕ, ◌+◌, ◌≤◌, String, ◌≡◌, refl, inl,
  inr, Option, none, some, List, [], ◌∷◌, arith,
}

pub data SdkEvent : Type 0 where
  effect_run : SdkEvent
  replied : ConfirmReply → SdkEvent
  elsewhere : Visit → SdkEvent

abbrev pub one_if : Option Confirmation → ℕ
one_if none = 0
one_if (some c) = 1

-- how many more confirmations the component may send
abbrev may_send : Sdk → ℕ
may_send s = if s.has_confirmed then 0 else 1

confirm_start_counts :
    (id : String) (w : Visit) (s : Sdk)
    → one_if (confirm_start id w s).2 + may_send (confirm_start id w s).1 ≤ may_send s
unfolding confirm_start
confirm_start_counts id w s = ground arith

start_with_counts :
    (o : Option String) (w : Visit) (s : Sdk)
    → one_if (start_with o w s).2 + may_send (start_with o w s).1 ≤ may_send s
unfolding start_with
start_with_counts none w s = omega arith
start_with_counts (some id) w s = elim (Bool-cases (is_empty id)) [
  | inl blank ↦ rw (blank) (omega arith)
  | inr named ↦ rw (named) (confirm_start_counts id w s)
]

may_send_settle :
    (o : Option String) (w : Visit) (s : Sdk) → may_send (settle_confirm o w s).1 ≡ may_send s
unfolding settle_confirm
may_send_settle none w s = refl
may_send_settle (some e) w s = elim (Bool-cases (e == "unauthorized")) [
  | inl out ↦ rw (out) refl
  | inr other ↦ rw (other) refl
]

may_send_finish :
    (r : ConfirmReply) (w : Visit) (s : Sdk) → may_send (confirm_finish r w s).1 ≡ may_send s
unfolding confirm_finish
may_send_finish r w s = may_send_settle (confirm_error r) w s

module _ (session_id_of : String → Option String) where
  -- the confirmations that are sent
  unfoldable pub confirmations : List SdkEvent → Visit → Sdk → ℕ
  unfolding start confirm_finish
  confirmations [] w s = 0
  confirmations (effect_run ∷ es) w s =
      let r = start session_id_of w s in one_if r.2 + confirmations es r.0 r.1
  confirmations (replied r ∷ es) w s =
      confirmations es (confirm_finish r w s).0 (confirm_finish r w s).1
  confirmations (elsewhere w' ∷ es) w s = confirmations es w' s

  confirmations_bound :
      (es : List SdkEvent) (w : Visit) (s : Sdk) → confirmations es w s ≤ may_send s
  unfolding confirmations start
  confirmations_bound [] w s = omega arith
  confirmations_bound (effect_run ∷ es) w s =
      let here = start_with_counts (session_id_of w.session.hash) w s in
      let rest = confirmations_bound es (start session_id_of w s).0 (start session_id_of w s).1 in
      omega (arith, here, rest)
  confirmations_bound (replied r ∷ es) w s =
      let rest = confirmations_bound es (confirm_finish r w s).0 (confirm_finish r w s).1 in
      omega (arith, may_send_finish r w s, rest)
  confirmations_bound (elsewhere w' ∷ es) w s = confirmations_bound es w' s

  -- However often its effect runs, whatever is answered and whatever the rest of the program does to the
  -- session and the hash: a page that is opened sends one confirmation at most.
  pub confirms_once : (es : List SdkEvent) (w : Visit) → confirmations es w opened ≤ 1
  confirms_once es w = confirmations_bound es w opened
