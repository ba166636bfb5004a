-- ===== src/Common/Prefix.antt =====
-- `startsWith`, by its characters, and how the prefixes of one text relate.
use Prim.Native.String.{[], ◌∷◌}
use text.Mathlib.TextLemmas.{cons-append}
use bv_orchestrator.Common.{
  nat_beq, nat_eq, string_eq, code, ◌+++◌, String, ◌≡◌, refl, Bool, true, false, not, ◌&&◌, ◌||◌,
  arith,
}

-- `s.startsWith(t)`
unfoldable pub starts_with : String → String → Bool
starts_with s [] = true
starts_with [] (d ∷ t) = false
starts_with (c ∷ s) (d ∷ t) = nat_beq (code c) (code d) && starts_with s t

-- The texts differ at a place that both have.
unfoldable pub clash : String → String → Bool
clash [] t = false
clash (c ∷ s) [] = false
clash (c ∷ s) (d ∷ t) = not (nat_beq (code c) (code d)) || clash s t

-- A text does not start with two texts that differ somewhere.
pub starts_with-clash :
    (s a b : String) → clash a b ≡ true → starts_with s b ≡ true → starts_with s a ≡ false
unfolding starts_with clash
starts_with-clash s [] b h k = cc
starts_with-clash s (c ∷ a) [] h k = cc
starts_with-clash [] (c ∷ a) (d ∷ b) h k = refl
starts_with-clash (e ∷ s) (c ∷ a) (d ∷ b) h k = ground (arith, starts_with-clash s a b)

-- A prefix of a prefix is a prefix.
pub starts_with_trans :
    (s a b : String) → starts_with b a ≡ true → starts_with s b ≡ true → starts_with s a ≡ true
unfolding starts_with
starts_with_trans s [] b h k = refl
starts_with_trans s (c ∷ a) [] h k = cc
starts_with_trans [] (c ∷ a) (d ∷ b) h k = cc
starts_with_trans (e ∷ s) (c ∷ a) (d ∷ b) h k = ground (arith, starts_with_trans s a b)

pub starts_with_self : (s : String) → starts_with s s ≡ true
unfolding starts_with
starts_with_self [] = refl
starts_with_self (c ∷ s) = ground (arith, starts_with_self s)

-- What a text starts with, it starts with when another text follows it.
pub starts_with_append : (s r p : String) → starts_with s p ≡ true → starts_with (s +++ r) p ≡ true
unfolding starts_with
starts_with_append s r [] h = refl
starts_with_append [] r (d ∷ p) h = cc
starts_with_append (c ∷ s) r (d ∷ p) h =
    let rest = starts_with_append s r p (ground arith) in rw (cons-append) (ground arith)
