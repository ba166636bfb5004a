-- ===== src/Users/Tests.antt =====
-- The users' tab with two answers in the wrong order (ManageAccessPage.tsx).
use bv_orchestrator.Users.{active, UserSummary, UsersTab, select_user, save, invite_start}
use bv_orchestrator.Users.Stale.{answers, save_last}
use bv_orchestrator.Common.{
  ◌==◌, nat_eq, string_eq, if◌then◌else◌, trim, ℕ, ◌≡◌, refl, true, false, none, some, List, [],
  ◌∷◌,
}

abbrev user : ℕ → UserSummary
user id = record {
  id = id;
  username = "u";
  email = none;
  is_active = true;
  status = active;
  locked_until = none;
  roles = [];
  last_login = none;
}

abbrev shown : UsersTab
shown = record {
  users = user 1 ∷ user 2 ∷ [];
  error = none;
  selected = none;
  assigned = [];
  message = none;
  said = [];
}

abbrev roles_of : ℕ → List ℕ
roles_of id = if id == 1 then 10 ∷ 11 ∷ [] else 12 ∷ []

-- User 1 is clicked, then user 2, and the answer for user 1 comes last.
save_last_example :
    save (answers roles_of (2 ∷ 1 ∷ []) (select_user (user 2) (select_user (user 1) shown).0).0)
    ≡ some (2, 10 ∷ 11 ∷ [])
save_last_example = save_last roles_of (user 2) (2 ∷ []) 1 (select_user (user 1) shown).0

invite_test :
    (invite_start (record { email = " "; role_ids = []; sending = false; error = none })).1 ≡ none
unfolding invite_start trim
invite_test = refl
