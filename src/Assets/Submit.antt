-- ===== src/Assets/Submit.antt =====
-- Which forms of an asset are saved (`submit` of AssetsPage.tsx).
use bv_orchestrator.Assets.{
  AssetType, text, int, bool, secret, credential, FormValues, is_whole, validate_value, Submitted,
  alerted, refused, saved, submit_rest, checked, submit,
}
use bv_orchestrator.Common.{
  nat_eq, string_eq, if◌then◌else◌, Bool-cases, is_empty, trim, String, ◌≡◌, refl, sym, ap, ◌∙◌,
  ◌≢◌, ◌↔◌, inl, inr, Bool, true, false, none, some,
}

abbrev pub IsComplete : AssetType → FormValues → Type 0
IsComplete credential form =
    (is_empty (trim form.cred_user) ≡ false) × (is_empty (trim form.cred_pass) ≡ false)
IsComplete int form = (is_empty (trim form.value) ≡ false) × (is_whole (trim form.value) ≡ true)
IsComplete _ form = is_empty (trim form.value) ≡ false

alerted-ne-saved : (s : String) (form : FormValues) → alerted s ≢ saved form
alerted-ne-saved s form e = cc

refused-ne-saved : (s : String) (form : FormValues) → refused s ≢ saved form
refused-ne-saved s form e = cc

-- A test that alerts, before what is done else.
guard_iff :
    {P : Type 0} (b : Bool) (s : String) (r : Submitted) (form : FormValues)
    → (r ≡ saved form) ↔ P
    → ((if b then alerted s else r) ≡ saved form) ↔ ((b ≡ false) × P)
guard_iff true s r form p = (λ h. absurd (alerted-ne-saved s form h), λ (n, q). cc)
guard_iff false s r form p = (λ h. (refl, p.0 h), λ (n, q). p.1 q)

last_iff :
    (b : Bool) (s : String) (form : FormValues)
    → ((if b then alerted s else saved form) ≡ saved form) ↔ (b ≡ false)
last_iff true s form = (λ h. absurd (alerted-ne-saved s form h), λ n. cc)
last_iff false s form = (λ h. refl, λ n. refl)

checked-none :
    (t : AssetType) (form : FormValues)
    → form.type ≡ t
    → validate_value form.value t ≡ none
    → checked (validate_value form.value form.type) form ≡ submit_rest t form
unfolding checked
checked-none t form h n =
    ap (λ x. checked (validate_value form.value x) form) h
    ∙ ap (λ o. checked o form) n
    ∙ ap (λ x. submit_rest x form) h

checked-some :
    (t : AssetType) (form : FormValues) (e : String)
    → form.type ≡ t
    → validate_value form.value t ≡ some e
    → checked (validate_value form.value form.type) form ≢ saved form
unfolding checked
checked-some t form e h n k =
    let same : checked (validate_value form.value form.type) form ≡ refused e =
      ap (λ x. checked (validate_value form.value x) form) h ∙ ap (λ o. checked o form) n in
    refused-ne-saved e form (sym same ∙ k)

via : {P : Type 0} {a b c : Submitted} → a ≡ b → (b ≡ c) ↔ P → (a ≡ c) ↔ P
via {P} {a} {b} {c} e p = (λ h. p.0 (sym e ∙ h), λ q. e ∙ p.1 q)

int_iff :
    (form : FormValues)
    → form.type ≡ int
    → (checked (validate_value form.value form.type) form ≡ saved form) ↔ IsComplete int form
unfolding validate_value submit_rest
int_iff form h = elim (Bool-cases (is_empty (trim form.value))) [
  | inl blank ↦
      (let no : validate_value form.value int ≡ some "Value is required" = rw (blank) refl in
        (λ k. absurd (checked-some int form _ h no k), λ (a, b). absurd cc))
  | inr some_text ↦ elim (Bool-cases (is_whole (trim form.value))) [
    | inr broken ↦
        (let no : validate_value form.value int ≡ some "Value must be a whole number" =
            rw (some_text, broken) refl in
          (λ k. absurd (checked-some int form _ h no k), λ (a, b). absurd cc))
    | inl whole ↦
        (let fine : validate_value form.value int ≡ none = rw (some_text, whole) refl in
          let last =
            via (checked-none int form h fine) (last_iff (is_empty (trim form.value)) _ form) in
          (λ k. (some_text, whole), λ (a, b). last.1 a))
  ]
]

checked_iff :
    (t : AssetType) (form : FormValues)
    → form.type ≡ t
    → (checked (validate_value form.value form.type) form ≡ saved form) ↔ IsComplete t form
unfolding validate_value submit_rest
checked_iff credential form h = via (checked-none credential form h refl) (
    guard_iff (is_empty (trim form.cred_user)) _ _ form
      (last_iff (is_empty (trim form.cred_pass)) _ form))
checked_iff int form h = int_iff form h
checked_iff text form h =
    via (checked-none text form h refl) (last_iff (is_empty (trim form.value)) _ form)
checked_iff bool form h =
    via (checked-none bool form h refl) (last_iff (is_empty (trim form.value)) _ form)
checked_iff secret form h =
    via (checked-none secret form h refl) (last_iff (is_empty (trim form.value)) _ form)

-- The form of an asset is saved exactly when it has a name that is not blank and what its type needs:
-- a credential a user and a password, an integer a text of digits with at most a minus before them,
-- any other type a value that is not blank; the form of an edit is no exception.
pub submit_iff :
    (form : FormValues)
    → (submit form ≡ saved form) ↔ ((is_empty (trim form.name) ≡ false) × IsComplete form.type form)
unfolding submit
submit_iff form =
    guard_iff (is_empty (trim form.name)) "Name is required" _ form
      (checked_iff form.type form refl)
