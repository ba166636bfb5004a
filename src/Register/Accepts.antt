-- ===== src/Register/Accepts.antt =====
-- When a form of Register.tsx is sent.
use bv_orchestrator.Register.{
  is_mail_char, email_regex, is_email, FormState, no_errors, Register, is_username, is_password,
  unless, form_errors, is_clean, submit,
}
use bv_orchestrator.Common.Pattern.{
  codes, some_of, Matches, end, step, test_iff, IsSome, one_inv, end_inv, some_of_inv,
  some_of_intro,
}
use mathlib.Core.List.{append-nil}
use mathlib.Core.Path.{subst}
use bv_orchestrator.Common.{
  ◌==◌, nat_eq, string_eq, is_some, Bool-cases, is_empty, trim, ℕ, String, ◌≡◌, refl, sym, ◌∙◌, ◌↔◌,
  inl, inr, Bool, true, false, not, ◌&&◌, List, [], ◌∷◌, ◌++◌, eq_iff, arith,
}

-- A local part, a domain and its last part, each of one or more characters that are no blanks and no `@`.
abbrev pub IsAddress : List ℕ → Type 0
IsAddress s =
    (local : List ℕ) × (domain : List ℕ) × (last : List ℕ) × IsSome is_mail_char local
    × IsSome is_mail_char domain
    × IsSome is_mail_char last
    × (s ≡ local ++ (b'@' ∷ (domain ++ (b'.' ∷ last))))

spelled_by : (s : List ℕ) → Matches email_regex s → IsAddress s
spelled_by s m =
    let (local, s', l, e, m') = some_of_inv m in
    let (at, s'', is_at, f, m'') = one_inv m' in
    let (domain, t, d, g, n) = some_of_inv m'' in
    let (dot, t', is_dot, k, n') = one_inv n in
    let (last, t'', la, j, n'') = some_of_inv n' in
    let done = end_inv n'' in
    let at_code : at ≡ b'@' = ground arith in
    let dot_code : dot ≡ b'.' = ground arith in
    (local, domain, last, l, d, la, cc (append-nil last))

matches_of : (s : List ℕ) → IsAddress s → Matches email_regex s
matches_of s (local, domain, last, l, d, t, e) = rw (e) (
    some_of_intro is_mail_char _ local _ l (
      step refl (
        some_of_intro is_mail_char _ domain _ d (
          step refl (
            subst (λ x. Matches (some_of is_mail_char ∷ []) x) (append-nil last)
              (some_of_intro is_mail_char [] last [] t end))))))

-- The expression for the address, read as its parts.
is_email_iff : (s : String) → (is_email s ≡ true) ↔ IsAddress (codes s)
unfolding is_email
is_email_iff s =
    let (sound, complete) = test_iff email_regex (codes s) in
    (λ h. spelled_by (codes s) (sound h), λ a. complete (matches_of (codes s) a))

unless_lem : (b : Bool) (m : String) → not (is_some (unless b m)) ≡ b
unless_lem true m = refl
unless_lem false m = refl

-- what a form has that is sent
abbrev pub IsFilled : FormState → Type 0
IsFilled form =
    (is_empty (trim form.full_name) ≡ false)
    × (is_username form.username ≡ true)
    × IsAddress (codes form.email)
    × (is_password form.password ≡ true)
    × (form.confirm_password ≡ form.password)
    × (form.accept_terms ≡ true)

valid_lem :
    (form : FormState)
    → is_clean (form_errors form) ≡ (
        not (is_empty (trim form.full_name))
        && is_username form.username
        && is_email form.email
        && is_password form.password
        && (form.confirm_password == form.password)
        && form.accept_terms
        && true)
unfolding is_clean form_errors
valid_lem form = simp unless_lem

valid_iff : (form : FormState) → (is_clean (form_errors form) ≡ true) ↔ IsFilled form
valid_iff form =
    let (sound, complete) = is_email_iff form.email in
    let (same, equal) = eq_iff form.confirm_password form.password in
    (
      λ h.
          let all = sym (valid_lem form) ∙ h in
          (
            ground arith,
            ground arith,
            sound (ground arith),
            ground arith,
            same (ground arith),
            ground arith,
          ),
      λ (name, user, address, password, twice, terms).
          let mail = complete address in let again = equal twice in valid_lem form ∙ ground arith,
    )

no_errors_valid : is_clean no_errors ≡ true
unfolding is_clean
no_errors_valid = refl

-- The form is sent exactly when there is a name that is not blank, a username of 3 to 32 letters, digits,
-- `_` and `-`, an address, a password of 8 to 32 characters on one line with a lower and an upper letter and a
-- digit, the same password again, and the terms are accepted; nothing is sent with an error on the screen.
pub register_iff :
    (v : Register)
    → ((is_some (submit v).0 ≡ true) ↔ IsFilled v.form)
      × (is_clean (submit v).1.errors ≡ is_some (submit v).0)
unfolding submit
register_iff v = elim (Bool-cases (is_clean (form_errors v.form))) [
  | inl valid ↦
      let (sound, complete) = valid_iff v.form in
      rw (valid) ((λ h. sound valid, λ filled. refl), no_errors_valid)
  | inr not_valid ↦
      let (sound, complete) = valid_iff v.form in
      rw (not_valid) ((λ h. cc, λ filled. (let valid = complete filled in cc)), not_valid)
]
