-- ===== src/Route/Prefixes.antt =====
-- The prefixes of the protected routes (main.tsx): what makes every route with a base a protected one.
use bv_orchestrator.Common.Prefix.{
  starts_with, clash, starts_with-clash, starts_with_trans, starts_with_self,
}
use bv_orchestrator.Targets.{
  has_base, public_route_prefixes, protected_route_prefixes, is_public_route, is_protected_route,
}
use bv_orchestrator.Common.{
  ◌==◌, nat_eq, string_eq, Bool-cases, any, String, ◌≡◌, refl, sym, inl, inr, Bool, true, false,
  not, ◌&&◌, ◌||◌, List, [], ◌∷◌, eq_iff, arith,
}

-- The equality test of `isPublicRoute` and `isProtectedRoute` adds nothing to the prefix test.
has_base-eq-starts_with : (route base : String) → has_base route base ≡ starts_with route base
has_base-eq-starts_with route base = elim (Bool-cases (route == base)) [
  | inl same ↦
      let e : route ≡ base = (eq_iff route base).0 same in
      rw same (rw e (sym (starts_with_self base)))
  | inr other ↦ rw other
]

-- A base differs from each of the prefixes.
abbrev clashes : String → List String → Bool
clashes base [] = true
clashes base (p ∷ ps) = clash p base && clashes base ps

any-has_base-clash :
    (route base : String) (ps : List String)
    → clashes base ps ≡ true
    → starts_with route base ≡ true
    → any (has_base route) ps ≡ false
any-has_base-clash route base [] h k = refl
any-has_base-clash route base (p ∷ ps) h k = ground (
  arith,
  has_base-eq-starts_with route p,
  starts_with-clash route p base,
  any-has_base-clash route base ps,
)

-- The base starts with a protected prefix.
abbrev covered : String → List String → Bool
covered base [] = false
covered base (p ∷ ps) = starts_with base p || covered base ps

any-has_base-covered :
    (route base : String) (ps : List String)
    → covered base ps ≡ true
    → starts_with route base ≡ true
    → any (has_base route) ps ≡ true
any-has_base-covered route base [] h k = cc
any-has_base-covered route base (p ∷ ps) h k = ground (
  arith,
  has_base-eq-starts_with route p,
  starts_with_trans route p base,
  any-has_base-covered route base ps,
)

-- What makes every route that starts with `base` a protected one; it is decided by computing.
abbrev pub is_guarded_base : String → Bool
is_guarded_base base =
    clashes base public_route_prefixes
    && covered base protected_route_prefixes
    && not (starts_with "#/" base)
    && not (starts_with "#" base)

pub ne_of_starts_with :
    (route base other : String)
    → starts_with other base ≡ false
    → starts_with route base ≡ true
    → (route == other) ≡ false
ne_of_starts_with route base other h k = elim (Bool-cases (route == other)) [
  | inl same ↦
      let e : route ≡ other = (eq_iff route other).0 same in
      let k' : starts_with other base ≡ true = rw (← e) k in cc
  | inr differs ↦ differs
]

pub is_protected_of_base :
    (route base : String)
    → is_guarded_base base ≡ true
    → starts_with route base ≡ true
    → is_protected_route route ≡ true
unfolding is_protected_route is_public_route
is_protected_of_base route base h k =
    let not_root : (route == "#/") ≡ false = ne_of_starts_with route base "#/" (ground arith) k in
    let not_hash : (route == "#") ≡ false = ne_of_starts_with route base "#" (ground arith) k in
    let not_public : any (has_base route) public_route_prefixes ≡ false =
      any-has_base-clash route base public_route_prefixes (ground arith) k in
    let is_listed : any (has_base route) protected_route_prefixes ≡ true =
      any-has_base-covered route base protected_route_prefixes (ground arith) k in
    rw (not_root, not_hash, not_public, is_listed)
