-- ===== src/Users/Invites.antt =====
-- ManageAccessPage.tsx: the list of the invites in the tab of the users, and the reset of a user's password. An
-- answer of the server is an argument; an error is its message.
use bv_orchestrator.Users.{UsersTab, say}
use bv_orchestrator.Client.Views.{InviteView}
use bv_orchestrator.Common.{
  nat_eq, string_eq, if◌then◌else◌, is_some, or_text, ℕ, String, ◌≡◌, refl, ◌⊎◌, inl, inr, Bool,
  true, false, not, Option, none, some, List,
}

pub record InvitesPane : Type 0 where
  pub invites : List InviteView
  pub loading : Bool
  pub error : Option String
  pub success : Option String

-- `loadInvites` up to its await, and the rest of it
unfoldable pub load_invites_start : InvitesPane → InvitesPane
load_invites_start v = record v { loading = true; error = none }

unfoldable pub load_invites_finish : String ⊎ List InviteView → InvitesPane → InvitesPane
load_invites_finish (inl e) v = record v {
  error = some (or_text e "Failed to load invites");
  loading = false;
}
load_invites_finish (inr invites) v = record v { invites = invites; loading = false }

pub data InviteAction : Type 0 where
  resend revoke : InviteAction

abbrev done : InviteAction → String
done resend = "Invite resent"
done revoke = "Invite revoked"

-- `onResend` and `onRevoke` up to their request
unfoldable pub act_start : InvitesPane → InvitesPane
act_start v = record v { success = none }

-- The rest of them: an error is caught by nothing, and the page stays as it is. The flag says that the invites
-- are loaded again and that a timer is set, which takes the message away.
unfoldable pub act_finish : InviteAction → Option String → InvitesPane → InvitesPane × Bool
act_finish action none v = (record v { success = some (done action) }, true)
act_finish action (some e) v = (v, false)

unfoldable pub timer_fired : InvitesPane → InvitesPane
timer_fired v = record v { success = none }

-- `handleAdminReset`: the user whose reset is asked for, and the page
unfoldable pub admin_reset : (ℕ → Option String) → Bool → UsersTab → Option ℕ × UsersTab
admin_reset answer confirmed v = elim v.selected [
  | none ↦ (none, v)
  | some u ↦
      if not confirmed
      then (none, v)
      else if is_some (answer u.id)
      then (some u.id, say "Reset failed" (record v { message = none }))
      else (some u.id, say "Reset link queued" (record v { message = some "Reset link queued" }))
]

-- An action that the server refuses leaves no word on the page.
refused_silently :
    (action : InviteAction) (e : String) (v : InvitesPane)
    → ((act_finish action (some e) (act_start v)).0.success ≡ none)
      × ((act_finish action (some e) (act_start v)).0.error ≡ v.error)
unfolding act_start act_finish
refused_silently action e v = (refl, refl)
