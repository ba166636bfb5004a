-- ===== src/Avatar/Polynomial.antt =====
-- The hash of an avatar's colour, without the wrap-around of each step (Avatar.tsx).
use bv_orchestrator.Avatar.{palette, wrapped, to_int32, hash_step, hash_of, hash_to_index, shift_5}
use bv_orchestrator.Common.Int.{ℤ, pos, negsuc, ◌+ℤ◌, ◌-ℤ◌, sub_ℕ, pos_part, neg_part}
use bv_orchestrator.Common.{
  ltb, nat_eq, string_eq, if◌then◌else◌, length, ℕ, ◌+◌, ◌*◌, ◌%◌, ◌^◌, ◌<◌, code, String, ◌≡◌, ap,
  ◌∙◌, arith,
}

wrapped_lt : (z : ℤ) → wrapped z < 4294967296
wrapped_lt (pos n) = omega arith
wrapped_lt (negsuc n) = omega arith

-- What a - b leaves, b added again.
wrapped-sub_ℕ : (a b : ℕ) → (wrapped (sub_ℕ a b) + b) % 4294967296 ≡ a % 4294967296
wrapped-sub_ℕ a b = ground arith

wrapped_of :
    (r : ℕ) → r < 4294967296 → wrapped (if ltb r 2147483648 then pos r else sub_ℕ r 4294967296) ≡ r
wrapped_of r h = ground arith

wrapped-to_int32 : (z : ℤ) → wrapped (to_int32 z) ≡ wrapped z
unfolding to_int32
wrapped-to_int32 z = wrapped_of (wrapped z) (wrapped_lt z)

-- An integer is the difference of its parts.
wrapped_parts : (z : ℤ) → (wrapped z + neg_part z) % 4294967296 ≡ pos_part z % 4294967296
wrapped_parts (pos n) = omega arith
wrapped_parts (negsuc n) = omega arith

-- The arithmetic of one step on what is left of its numbers: h for the hash, s for the shifted hash,
-- y for their difference, x for the sum, each with its parts.
step_arith :
    (h hp hn s sp sn y yp yn x c : ℕ)
    → x < 4294967296
    → (h + hn) % 4294967296 ≡ hp % 4294967296
    → (s + hn * 32) % 4294967296 ≡ hp * 32 % 4294967296
    → (s + sn) % 4294967296 ≡ sp % 4294967296
    → (y + (sn + hp)) % 4294967296 ≡ (sp + hn) % 4294967296
    → (y + yn) % 4294967296 ≡ yp % 4294967296
    → (x + (yn + 0)) % 4294967296 ≡ (yp + c) % 4294967296
    → x ≡ (h * 31 + c) % 4294967296
step_arith h hp hn s sp sn y yp yn x c l e1 e2 e3 e4 e5 e6 =
    omega (arith, l, e1, e2, e3, e4, e5, e6)

wrapped-hash_step : (z : ℤ) (c : ℕ) → wrapped (hash_step z c) ≡ (wrapped z * 31 + c) % 4294967296
unfolding hash_step ◌+ℤ◌ ◌-ℤ◌
wrapped-hash_step z c =
    let s = shift_5 z in
    let y = s -ℤ z in
    wrapped-to_int32 (y +ℤ pos c)
    ∙ step_arith (wrapped z) (pos_part z) (neg_part z) (wrapped s) (pos_part s) (neg_part s)
        (wrapped y) (pos_part y) (neg_part y) (wrapped (y +ℤ pos c)) c (wrapped_lt (y +ℤ pos c))
        (wrapped_parts z)
        (ap (λ w. (w + neg_part z * 32) % 4294967296)
            (wrapped-to_int32 (sub_ℕ (pos_part z * 32) (neg_part z * 32)))
          ∙ wrapped-sub_ℕ (pos_part z * 32) (neg_part z * 32))
        (wrapped_parts s) (wrapped-sub_ℕ (pos_part s + neg_part z) (neg_part s + pos_part z))
        (wrapped_parts y) (wrapped-sub_ℕ (pos_part y + c) (neg_part y + 0))

-- The polynomial in 31 of the codes of a text, on top of `value`, with no bound on the numbers.
abbrev pub polynomial : ℕ → String → ℕ
polynomial value String.[] = value
polynomial value (String.◌∷◌ c s) = polynomial (value * 31 + code c) s

polynomial_mod :
    (a b : ℕ) (s : String)
    → a % 4294967296 ≡ b % 4294967296
    → polynomial a s % 4294967296 ≡ polynomial b s % 4294967296
polynomial_mod a b String.[] h = h
polynomial_mod a b (String.◌∷◌ c s) h =
    polynomial_mod (a * 31 + code c) (b * 31 + code c) s (omega (arith, h))

hash_from : (z : ℤ) (s : String) → wrapped (hash_of z s) ≡ polynomial (wrapped z) s % 4294967296
unfolding hash_of
hash_from z String.[] = omega (arith, wrapped_lt z)
hash_from z (String.◌∷◌ c s) =
    hash_from (hash_step z (code c)) s
    ∙ polynomial_mod (wrapped (hash_step z (code c))) (wrapped z * 31 + code c) s
        (omega (arith, wrapped-hash_step z (code c)))

-- The hash of a seed, wrapped round to 32 bits at every step, is, modulo 2^32, the polynomial in
-- 31 of its characters' codes, and the index that it leads to has a colour.
hash_of_lem :
    (seed : String)
    → (wrapped (hash_of (pos 0) seed) ≡ polynomial 0 seed % 2 ^ 32)
      × (hash_to_index seed < length palette)
unfolding hash_to_index
hash_of_lem seed = (hash_from (pos 0) seed, omega arith)
