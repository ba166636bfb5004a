-- ===== src/Packages/Grouping.antt =====
-- How the packages are grouped by their name (PackagesPage.tsx).
use bv_orchestrator.Packages.{Package, Group, push, inherited, group}
use bv_orchestrator.Common.Distinct.{IsDistinct, append-IsDistinct}
use bv_orchestrator.Common.{
  ◌==◌, nat_eq, string_eq, if◌then◌else◌, Bool-cases, keep, any, has, String, ◌≡◌, refl, ap, ◌∙◌,
  ◌↔◌, inl, inr, Bool, true, none, some, List, [], ◌∷◌, ◌++◌, map, eq_iff, arith,
}

abbrev pub versions : String → List Package → List Package
versions name ps = keep (λ (p : Package). p.name == name) ps

-- the versions in the group of that name
unfoldable pub members : String → List Group → List Package
members name [] = []
members name (g ∷ gs) = if g.name == name then g.first ∷ g.rest else members name gs

abbrev pub names : List Group → List String
names gs = map (λ (g : Group). g.name) gs

abbrev alone : String → Package → List Package
alone name p = if p.name == name then p ∷ [] else []

append_nil : {A : Type 0} (xs : List A) → xs ++ [] ≡ xs
append_nil [] = refl
append_nil (x ∷ xs) = rw (append_nil xs)

members-push :
    (name : String) (p : Package) (gs : List Group)
    → members name (push p gs) ≡ members name gs ++ alone name p
unfolding members push
members-push name p [] = ground arith
members-push name p (g ∷ gs) =
    let rest = members-push name p gs in
    let end = append_nil (members name gs) in
    let end' = append_nil (g.first ∷ g.rest) in
    ground (arith, eq_iff g.name p.name, eq_iff g.name name, eq_iff p.name name)

names-push :
    (p : Package) (gs : List Group)
    → names (push p gs) ≡ (if has p.name (names gs) then names gs else names gs ++ (p.name ∷ []))
unfolding push
names-push p [] = refl
names-push p (g ∷ gs) = let rest = names-push p gs in ground arith

push-IsDistinct :
    (p : Package) (gs : List Group) → IsDistinct (names gs) → IsDistinct (names (push p gs))
push-IsDistinct p gs h = elim (Bool-cases (has p.name (names gs))) [
  | inl known ↦ rw (names-push p gs, known) h
  | inr fresh ↦ rw (names-push p gs, fresh) (append-IsDistinct p.name (names gs) fresh h)
]

append_assoc : {A : Type 0} (xs ys zs : List A) → (xs ++ ys) ++ zs ≡ xs ++ (ys ++ zs)
append_assoc [] ys zs = refl
append_assoc (x ∷ xs) ys zs = rw (append_assoc xs ys zs)

append_alone :
    (name : String) (p : Package) (ps : List Package)
    → alone name p ++ versions name ps ≡ versions name (p ∷ ps)
append_alone name p ps = ground arith

-- A name that is a property of every object.
abbrev pub is_inherited : Package → Bool
is_inherited p = has p.name inherited

after_push :
    (p : Package) (ps : List Package) (gs gs' : List Group)
    → group (p ∷ ps) gs ≡ some gs'
    → group ps (push p gs) ≡ some gs'
unfolding group
after_push p ps gs gs' h = ground arith

pub group-members :
    (name : String) (ps : List Package) (gs gs' : List Group)
    → group ps gs ≡ some gs'
    → members name gs' ≡ members name gs ++ versions name ps
unfolding group
group-members name [] gs gs' h = let e : gs ≡ gs' = cc in rw (e, append_nil (members name gs'))
group-members name (p ∷ ps) gs gs' h =
    group-members name ps (push p gs) gs' (after_push p ps gs gs' h)
    ∙ (ap (λ vs. vs ++ versions name ps) (members-push name p gs)
        ∙ (append_assoc (members name gs) (alone name p) (versions name ps)
            ∙ ap (λ vs. members name gs ++ vs) (append_alone name p ps)))

pub group-IsDistinct :
    (ps : List Package) (gs gs' : List Group)
    → group ps gs ≡ some gs'
    → IsDistinct (names gs)
    → IsDistinct (names gs')
unfolding group
group-IsDistinct [] gs gs' h d = let e : gs ≡ gs' = cc in rw e at d
group-IsDistinct (p ∷ ps) gs gs' h d =
    group-IsDistinct ps (push p gs) gs' (after_push p ps gs gs' h) (push-IsDistinct p gs d)

-- The grouping fails exactly when a package has such a name.
pub group_fails :
    (ps : List Package) (gs : List Group) → (group ps gs ≡ none) ↔ (any is_inherited ps ≡ true)
unfolding group
group_fails [] gs = (λ h. cc, λ h. cc)
group_fails (p ∷ ps) gs =
    let (there, back) = group_fails ps (push p gs) in
    elim (Bool-cases (is_inherited p)) [
      | inl bad ↦ rw (bad) (λ h. refl, λ h. refl)
      | inr good ↦ rw (good) (there, back)
    ]
