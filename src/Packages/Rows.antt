-- ===== src/Packages/Rows.antt =====
-- The rows of the packages' table (PackagesPage.tsx), beside the versions they stand for.
use bv_orchestrator.Packages.{
  rows, group, Package, Group, group, newest, Row, row, rows, grouped, later, versions_for,
}
use bv_orchestrator.Packages.Grouping.{
  versions, members, names, group-members, group-IsDistinct, is_inherited, group_fails,
}
use bv_orchestrator.Common.Distinct.{IsDistinct}
use bv_orchestrator.Common.Sorting.{insert, sort, length-sort, All-sort}
use Prim.Native.Nat.{max}
use bv_orchestrator.Common.{
  ◌==◌, nat_eq, string_eq, Option-cases, length, any, has, All, is_empty, ℕ, String, ◌≡◌, refl, sym,
  ◌∙◌, ◌↔◌, inl, inr, Bool, true, false, none, some, List, [], ◌∷◌, map, eq_iff, eq_refl, arith,
}

-- the greatest date
top : List Package → ℕ
top [] = 0
top (p ∷ ps) = max p.updated_at (top ps)

newest-top :
    (p : Package) (ps : List Package) → (newest p ps).updated_at ≡ max p.updated_at (top ps)
unfolding newest top
newest-top p [] = omega arith
newest-top p (q ∷ ps) = let kept = newest-top p ps in let taken = newest-top q ps in ground arith

abbrev pub first_date : List Package → ℕ
first_date [] = 0
first_date (p ∷ ps) = p.updated_at

first_date_of_insert :
    (p : Package) (ps : List Package)
    → first_date (insert later p ps) ≡ max p.updated_at (first_date ps)
first_date_of_insert p [] = omega arith
first_date_of_insert p (q ∷ ps) = ground arith

first_date_of_sort : (ps : List Package) → first_date (sort later ps) ≡ top ps
unfolding top
first_date_of_sort [] = refl
first_date_of_sort (p ∷ ps) =
    omega (arith, first_date_of_insert p (sort later ps), first_date_of_sort ps)

abbrev HasMembers : List Group → Group → Type 0
HasMembers gs g = members g.name gs ≡ g.first ∷ g.rest

members_skip :
    (g : Group) (gs hs : List Group)
    → has g.name (names hs) ≡ false
    → All (HasMembers gs) hs
    → All (HasMembers (g ∷ gs)) hs
unfolding members
members_skip g gs [] n h = tt
members_skip g gs (x ∷ hs) n (m, h) =
    let apart : (g.name == x.name) ≡ false =
      ground (arith, eq_iff x.name g.name, eq_iff g.name x.name) in
    (rw (apart) m, members_skip g gs hs (ground arith) h)

All-members : (gs : List Group) → IsDistinct (names gs) → All (HasMembers gs) gs
unfolding members
All-members [] d = tt
All-members (g ∷ gs) (n, d) = (rw (eq_refl g.name), members_skip g gs gs n (All-members gs d))

-- What a row says of the packages `ps`.
abbrev pub IsTrue : List Package → Row → Type 0
IsTrue ps r =
    is_empty r.name ≡ false
    → (r.total_versions ≡ length (versions_for (some r.name) ps))
      × (r.updated_at ≡ first_date (versions_for (some r.name) ps))

row-IsTrue :
    (ps : List Package) (g : Group) → versions g.name ps ≡ g.first ∷ g.rest → IsTrue ps (row g)
unfolding row versions_for top
row-IsTrue ps g e named =
    let size = length-sort later (g.first ∷ g.rest) in
    let newest_date = newest-top g.first (g.first ∷ g.rest) in
    let sorted_date = first_date_of_sort (g.first ∷ g.rest) in
    rw (named, e) (omega (arith, size), omega (arith, newest_date, sorted_date))

rows-IsTrue :
    (ps : List Package) (gs hs : List Group)
    → ((name : String) → members name gs ≡ versions name ps)
    → All (HasMembers gs) hs
    → All (IsTrue ps) (map row hs)
rows-IsTrue ps gs [] all h = tt
rows-IsTrue ps gs (g ∷ hs) all (m, h) =
    (row-IsTrue ps g (sym (all g.name) ∙ m), rows-IsTrue ps gs hs all h)

-- Where the table is shown, each row with a name has as many versions as the window of that name lists, and
-- the date of the first one there.
pub grouped-IsTrue :
    (after : String → String → Bool) (ps : List Package) (rs : List Row)
    → grouped after ps ≡ some rs
    → All (IsTrue ps) rs
unfolding grouped members
grouped-IsTrue after ps rs h = elim (Option-cases (group ps [])) [
  | inl failed ↦ absurd (let no : rows after none ≡ some rs = (rw (failed) at h) in cc)
  | inr (gs, e) ↦
      (let found : rows after (some gs) ≡ some rs = (rw (e) at h) in
        let is_sorted : sort (λ (a b : Row). after a.name b.name) (map row gs) ≡ rs = cc in
        rw (sym is_sorted) (
          All-sort (λ (a b : Row). after a.name b.name) (IsTrue ps) (map row gs)
            (rows-IsTrue ps gs gs (λ name. group-members name ps [] gs e)
              (All-members gs (group-IsDistinct ps [] gs e tt)))))
]

-- A package of the name `constructor`, or of another that every object has as a property, is all that can
-- keep the table from being shown.
grouped_fails :
    (after : String → String → Bool) (ps : List Package)
    → (grouped after ps ≡ none) ↔ (any is_inherited ps ≡ true)
unfolding grouped
grouped_fails after ps =
    let (there, back) = group_fails ps [] in
    elim (Option-cases (group ps [])) [
      | inl failed ↦ rw (failed) (λ h. there failed, λ h. refl)
      | inr (gs, e) ↦ rw (e) (λ h. cc, λ h. let no : group ps [] ≡ none = back h in cc)
    ]
