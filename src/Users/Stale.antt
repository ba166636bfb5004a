-- ===== src/Users/Stale.antt =====
-- Answers that come late (ManageAccessPage.tsx): whose roles are saved for the user that is selected. `roles_of`
-- is what the server answers for a user.
use bv_orchestrator.Users.{UserSummary, UsersTab, select_user, roles_came, save}
use bv_orchestrator.Common.{nat_eq, string_eq, ℕ, ◌≡◌, refl, none, some, List, [], ◌∷◌, ◌++◌}

module _ (roles_of : ℕ → List ℕ) where
  -- the answers that come in, by the users that they are about
  unfoldable pub answers : List ℕ → UsersTab → UsersTab
  unfolding roles_came
  answers [] v = v
  answers (id ∷ ids) v = answers ids (roles_came (some (roles_of id)) v)

  answers_keep : (ids : List ℕ) (v : UsersTab) → (answers ids v).selected ≡ v.selected
  unfolding answers roles_came
  answers_keep [] v = refl
  answers_keep (id ∷ ids) v = answers_keep ids (roles_came (some (roles_of id)) v)

  answers_last :
      (ids : List ℕ) (id : ℕ) (v : UsersTab) → (answers (ids ++ (id ∷ [])) v).assigned ≡ roles_of id
  unfolding answers roles_came
  answers_last [] id v = refl
  answers_last (i ∷ ids) id v = answers_last ids id (roles_came (some (roles_of i)) v)

  -- A user is chosen, answers to this and to earlier choices come in, one at least and none a failure, in any order,
  -- and the roles are saved: the request is for the chosen user, with the roles of the user whose answer came last.
  pub save_last :
      (u : UserSummary) (ids : List ℕ) (last : ℕ) (v : UsersTab)
      → save (answers (ids ++ (last ∷ [])) (select_user u v).0) ≡ some (u.id, roles_of last)
  unfolding save select_user
  save_last u ids last v =
      let chosen : UsersTab = record v { message = none; selected = some u } in
      rw (answers_keep (ids ++ (last ∷ [])) chosen, answers_last ids last chosen) refl
