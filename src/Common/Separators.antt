-- ===== src/Common/Separators.antt =====
-- Texts without a separator, and what `split` makes of them.
use bv_orchestrator.Common.{split_from}
use text.Mathlib.TextLemmas.{nil-append, cons-append, append-nil, append_assoc}
use bv_orchestrator.Common.{
  ◌==◌, nat_eq, string_eq, ◌+++◌, split, ℕ, Char, code, String, ◌≡◌, refl, ap, ◌∙◌, Bool, true,
  false, not, ◌&&◌, [], ◌∷◌, arith,
}

-- no such character
unfoldable pub lacks : ℕ → String → Bool
lacks c String.[] = true
lacks c (String.◌∷◌ d s) = not (code d == c) && lacks c s

pub lacks-append :
    (c : ℕ) (s t : String) → lacks c s ≡ true → lacks c t ≡ true → lacks c (s +++ t) ≡ true
unfolding lacks
lacks-append c String.[] t h k = rw (nil-append t) k
lacks-append c (String.◌∷◌ d s) t h k =
    let rest = lacks-append c s t (ground arith) k in rw (cons-append d s t) (ground arith)

pub append_step :
    (cur : String) (d : Char) (s : String)
    → (cur +++ String.◌∷◌ d String.[]) +++ s ≡ cur +++ String.◌∷◌ d s
append_step cur d s =
    append_assoc cur (String.◌∷◌ d String.[]) s
    ∙ ap (λ x. cur +++ x) (cons-append d String.[] s ∙ ap (λ x. String.◌∷◌ d x) (nil-append s))

-- The rest of a text without the separator is the last part.
pub split_from-lacks :
    (c : ℕ) (cur s : String) → lacks c s ≡ true → split_from c cur s ≡ (cur +++ s) ∷ []
unfolding lacks
split_from-lacks c cur String.[] h = rw (append-nil cur) refl
split_from-lacks c cur (String.◌∷◌ d s) h =
    let apart : (code d == c) ≡ false = ground arith in
    rw (apart) (
      split_from-lacks c (cur +++ String.◌∷◌ d String.[]) s (ground arith)
      ∙ ap (λ x. x ∷ []) (append_step cur d s))

pub split_from_at :
    (c : ℕ) (cur s : String) (d : Char) (t : String)
    → lacks c s ≡ true
    → (code d == c) ≡ true
    → split_from c cur (s +++ String.◌∷◌ d t) ≡ (cur +++ s) ∷ split_from c "" t
unfolding lacks
split_from_at c cur String.[] d t h k = rw (nil-append (String.◌∷◌ d t), k, append-nil cur) refl
split_from_at c cur (String.◌∷◌ e s) d t h k =
    let apart : (code e == c) ≡ false = ground arith in
    rw (cons-append e s (String.◌∷◌ d t), apart)
      (split_from_at c (cur +++ String.◌∷◌ e String.[]) s d t (ground arith) k
        ∙ ap (λ x. x ∷ split_from c "" t) (append_step cur e s))

pub split-lacks : (c : ℕ) (s : String) → lacks c s ≡ true → split c s ≡ s ∷ []
unfolding split
split-lacks c s h = split_from-lacks c "" s h ∙ ap (λ x. x ∷ []) (nil-append s)
