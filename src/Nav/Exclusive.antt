-- ===== src/Nav/Exclusive.antt =====
-- The entries of the navigation bar do not overlap (AppLayout.tsx).
use bv_orchestrator.Common.Prefix.{starts_with, clash, starts_with-clash}
use bv_orchestrator.Nav.{NavItem, nav_items, is_active}
use bv_orchestrator.Common.{
  ◌==◌, nat_eq, string_eq, Bool-cases, length, keep, any, every, ◌≤◌, String, ◌≡◌, refl, ap, inl,
  inr, Bool, true, false, not, ◌&&◌, List, [], ◌∷◌, eq_iff, arith,
}

-- No text makes both entries active.
abbrev apart : NavItem → NavItem → Bool
apart i j =
    every (λ s. not (is_active s j)) i.exact
    && every (λ s. not (is_active s i)) j.exact
    && every (λ p. every (λ q. clash q p) j.own) i.own

abbrev exclusive : List NavItem → Bool
exclusive [] = true
exclusive (i ∷ is) = every (apart i) is && exclusive is

exact_off :
    (f : String → Bool) (hash : String) (ss : List String)
    → every (λ s. not (f s)) ss ≡ true
    → any (λ s. hash == s) ss ≡ true
    → f hash ≡ false
exact_off f hash [] e h = cc
exact_off f hash (s ∷ ss) e h = elim (Bool-cases (hash == s)) [
  | inl y ↦ (let same : hash ≡ s = (eq_iff hash s).0 y in ground arith)
  | inr n ↦ exact_off f hash ss (ground arith) (ground arith)
]

own_off :
    (hash p : String) (qs : List String)
    → every (λ q. clash q p) qs ≡ true
    → starts_with hash p ≡ true
    → any (starts_with hash) qs ≡ false
own_off hash p [] e h = refl
own_off hash p (q ∷ qs) e h =
    let off : starts_with hash q ≡ false = starts_with-clash hash q p (ground arith) h in
    let rest = own_off hash p qs (ground arith) h in ground arith

owns_off :
    (hash : String) (ps qs : List String)
    → every (λ p. every (λ q. clash q p) qs) ps ≡ true
    → any (starts_with hash) ps ≡ true
    → any (starts_with hash) qs ≡ false
owns_off hash [] qs e h = cc
owns_off hash (p ∷ ps) qs e h = elim (Bool-cases (starts_with hash p)) [
  | inl y ↦ own_off hash p qs (ground arith) y
  | inr n ↦ owns_off hash ps qs (ground arith) (ground arith)
]

own_part :
    (hash : String) (i j : NavItem)
    → any (λ s. hash == s) i.exact ≡ false
    → any (λ s. hash == s) j.exact ≡ false
    → is_active hash i ≡ true
    → every (λ p. every (λ q. clash q p) j.own) i.own ≡ true
    → is_active hash j ≡ false
unfolding is_active
own_part hash i j n m h e =
    let on : any (starts_with hash) i.own ≡ true = ground arith in
    let off = owns_off hash i.own j.own e on in ground arith

apart_lem :
    (hash : String) (i j : NavItem)
    → apart i j ≡ true
    → is_active hash i ≡ true
    → is_active hash j ≡ false
apart_lem hash i j e h =
    let e1 : every (λ s. not (is_active s j)) i.exact ≡ true = ground arith in
    let e2 : every (λ s. not (is_active s i)) j.exact ≡ true = ground arith in
    let e3 : every (λ p. every (λ q. clash q p) j.own) i.own ≡ true = ground arith in
    elim (Bool-cases (any (λ s. hash == s) i.exact)) [
      | inl y ↦ exact_off (λ s. is_active s j) hash i.exact e1 y
      | inr n ↦ elim (Bool-cases (any (λ s. hash == s) j.exact)) [
        | inl y ↦
            (let off : is_active hash i ≡ false =
                exact_off (λ s. is_active s i) hash j.exact e2 y in
              cc)
        | inr m ↦ own_part hash i j n m h e3
      ]
    ]

idle :
    (hash : String) (i : NavItem) (is : List NavItem)
    → every (apart i) is ≡ true
    → is_active hash i ≡ true
    → keep (is_active hash) is ≡ []
idle hash i [] e h = refl
idle hash i (j ∷ is) e h =
    let off : is_active hash j ≡ false = apart_lem hash i j (ground arith) h in
    let rest = idle hash i is (ground arith) h in ground arith

exclusive_lem :
    (hash : String) (is : List NavItem)
    → exclusive is ≡ true
    → length (keep (is_active hash) is) ≤ 1
exclusive_lem hash [] e = omega arith
exclusive_lem hash (i ∷ is) e = elim (Bool-cases (is_active hash i)) [
  | inl y ↦
      (let rest : keep (is_active hash) is ≡ [] = idle hash i is (ground arith) y in
        let only : keep (is_active hash) (i ∷ is) ≡ i ∷ [] = rw (y, rest) refl in
        let n : length (keep (is_active hash) (i ∷ is)) ≡ 1 = ap length only in omega (arith, n))
  | inr n ↦
      (let same : keep (is_active hash) (i ∷ is) ≡ keep (is_active hash) is = rw (n) refl in
        let same' = ap length same in omega (arith, same', exclusive_lem hash is (ground arith)))
]

nav_items-exclusive : exclusive nav_items ≡ true
unfolding is_active clash starts_with
nav_items-exclusive = refl

-- Whatever the hash, at most one entry of the bar is active.
pub one_active : (hash : String) → length (keep (is_active hash) nav_items) ≤ 1
one_active hash = exclusive_lem hash nav_items nav_items-exclusive
