-- ===== src/Roles/Reopen.antt =====
-- A role that is saved and opened again (ManageAccessPage.tsx with api/access.ts).
use bv_orchestrator.Roles.{
  RolePermission, to_role_permission, permission_body, Column, toggle, row_of, init_perms,
  artifacts,
}
use bv_orchestrator.Roles.Laws.{flip-artifact}
use bv_orchestrator.Client.Views.{RoleView, role_of, to_role}
use bv_orchestrator.Client.Access.{permission_elems, role_changes}
use bv_orchestrator.Client.Decode.{each, of_object}
use bv_orchestrator.Common.Distinct.{IsDistinct}
use bv_orchestrator.Common.Subset.{flipped}
use bv_orchestrator.Json.{Json, arr, obj, Props, prop, Elems, nil, cons, elems, get, to_text}
use std.Path.{subst}
use bv_orchestrator.Common.{
  ◌==◌, nat_eq, string_eq, Bool-cases, find_first, has, All, ℕ, suc, String, ◌≡◌, refl, sym, ap,
  ◌∙◌, inl, inr, false, Option, none, some, List, [], ◌∷◌, map, eq_refl, arith,
}

-- the artifacts of the rows
abbrev pub names : List RolePermission → List String
names ps = map (λ (p : RolePermission). p.artifact) ps

-- a click on a box: the artifact and the column
unfoldable pub toggles : List (String × Column) → List RolePermission → List RolePermission
unfolding toggle
toggles [] ps = ps
toggles ((a, key) ∷ cs) ps = toggles cs (toggle a key ps)

names-toggle :
    (a : String) (key : Column) (ps : List RolePermission) → names (toggle a key ps) ≡ names ps
unfolding toggle
names-toggle a key [] = refl
names-toggle a key (p ∷ ps) = elim (Bool-cases (p.artifact == a)) [
  | inl y ↦ rw (y, flip-artifact key p, names-toggle a key ps) refl
  | inr n ↦ rw (n, names-toggle a key ps) refl
]

names-toggles :
    (cs : List (String × Column)) (ps : List RolePermission) → names (toggles cs ps) ≡ names ps
unfolding toggles
names-toggles [] ps = refl
names-toggles ((a, key) ∷ cs) ps = names-toggles cs (toggle a key ps) ∙ names-toggle a key ps

row_of-artifact : (a : String) (p : Option RolePermission) → (row_of a p).artifact ≡ a
row_of-artifact a none = refl
row_of-artifact a (some p) = refl

names-init_perms : (ks : List String) (ps : List RolePermission) → names (init_perms ks ps) ≡ ks
unfolding init_perms
names-init_perms [] ps = refl
names-init_perms (a ∷ ks) ps =
    rw
      (
        row_of-artifact a (find_first (λ (p : RolePermission). p.artifact == a) ps),
        names-init_perms ks ps,
      )
      refl

-- the row is the first of its artifact
abbrev IsFound : List RolePermission → RolePermission → Type 0
IsFound full p = find_first (λ (q : RolePermission). q.artifact == p.artifact) full ≡ some p

IsFound-later :
    (h : RolePermission) (full ps : List RolePermission)
    → has h.artifact (names ps) ≡ false
    → All (IsFound full) ps
    → All (IsFound (h ∷ full)) ps
IsFound-later h full [] n all = tt
IsFound-later h full (p ∷ ps) n (here, rest) =
    let apart : (h.artifact == p.artifact) ≡ false = flipped h.artifact p.artifact ∙ the_first in
    (rw (apart) here, IsFound-later h full ps (ground arith) rest)
  where
    the_first : (p.artifact == h.artifact) ≡ false
    the_first = ground (arith, n)

All-IsFound : (ps : List RolePermission) → IsDistinct (names ps) → All (IsFound ps) ps
All-IsFound [] d = tt
All-IsFound (p ∷ ps) (n, d) =
    (rw (eq_refl p.artifact) refl, IsFound-later p ps ps n (All-IsFound ps d))

init_perms-IsFound :
    (full ps : List RolePermission) → All (IsFound full) ps → init_perms (names ps) full ≡ ps
unfolding init_perms
init_perms-IsFound full [] all = refl
init_perms-IsFound full (p ∷ ps) (here, rest) = rw (here, init_perms-IsFound full ps rest) refl

-- the permissions as they come back, with the ids that the server gives them
unfoldable pub with_ids : (ℕ → Json) → ℕ → List RolePermission → List RolePermission
with_ids ids n [] = []
with_ids ids n (p ∷ ps) = record p { id = some (ids n) } ∷ with_ids ids (suc n) ps

-- The answer of the server to permissions that it was sent: each of them, with an id before its properties.
unfoldable pub answer_elems : (ℕ → Json) → ℕ → Elems → Elems
answer_elems ids n nil = nil
answer_elems ids n (cons (obj ps) vs) =
    cons (obj (prop "id" (ids n) ps)) (answer_elems ids (suc n) vs)
answer_elems ids n (cons v vs) = cons v (answer_elems ids (suc n) vs)

abbrev pub answered_with : (ℕ → Json) → Option Json → Option Json
answered_with ids (some (arr vs)) = some (arr (answer_elems ids 0 vs))
answered_with ids v = v

names-with_ids :
    (ids : ℕ → Json) (n : ℕ) (ps : List RolePermission) → names (with_ids ids n ps) ≡ names ps
unfolding with_ids
names-with_ids ids n [] = refl
names-with_ids ids n (p ∷ ps) = rw (names-with_ids ids (suc n) ps) refl

each-answer_elems :
    (ids : ℕ → Json) (n : ℕ) (ps : List RolePermission)
    → each
        (of_object (λ p. inr (to_role_permission p)))
        (elems (answer_elems ids n (permission_elems ps)))
      ≡ inr (with_ids ids n ps)
unfolding each permission_body answer_elems with_ids to_role_permission to_text
each-answer_elems ids n [] = refl
each-answer_elems ids n (p ∷ ps) = rw (each-answer_elems ids (suc n) ps) refl

reopened :
    (form answer : List RolePermission)
    → names answer ≡ names form
    → names form ≡ artifacts
    → init_perms artifacts answer ≡ answer
reopened form answer same h =
    let eq : names answer ≡ artifacts = same ∙ h in
    let all = All-IsFound answer (subst IsDistinct (sym eq) distinct) in
    sym (ap (λ ks. init_perms ks answer) eq) ∙ init_perms-IsFound answer answer all
  where
    distinct : IsDistinct artifacts
    distinct = (refl, (refl, (refl, (refl, (refl, (refl, (refl, (refl, (refl, (refl, tt))))))))))

-- The boxes of a role's matrix are clicked in any order, and the role is saved; the server answers with the
-- permissions that it was sent, in their order, and gives each an id. The answer is then read as a role, and the
-- matrix that it opens has the same artifacts and the same boxes as the one that was saved, in the same order, with
-- the server's ids.
pub reopen_lem :
    (ids : ℕ → Json) (existing : List RolePermission) (cs : List (String × Column))
    (name description : String) (answer : Props)
    → get "permissions" (obj answer)
      ≡ answered_with ids (
          get "permissions" (
            role_changes
              (some name)
              (some description)
              (some (toggles cs (init_perms artifacts existing)))))
    → (role : RoleView) × (to_role (obj answer) ≡ inr role)
      × (init_perms artifacts role.permissions
          ≡ with_ids ids 0 (toggles cs (init_perms artifacts existing)))
unfolding to_role role_changes
reopen_lem ids existing cs name description answer h =
    let form = toggles cs (init_perms artifacts existing) in
    let named =
      names-toggles cs (init_perms artifacts existing) ∙ names-init_perms artifacts existing in
    (
      role_of (obj answer) (with_ids ids 0 form),
      rw (h, each-answer_elems ids 0 form) refl,
      reopened form (with_ids ids 0 form) (names-with_ids ids 0 form) named,
    )
