-- ===== src/Account/Laws.antt =====
-- What the page of the account sends (MyAccountPage.tsx).
use bv_orchestrator.Json.{Json, str, Props, end, prop, prop_of}
use bv_orchestrator.Json.Case.{set_prop}
use bv_orchestrator.Account.{
  Account, delete_prop, saved_preferences, preferences_of, change_password_start,
}
use bv_orchestrator.Common.{
  ◌==◌, nat_eq, string_eq, if◌then◌else◌, Bool-cases, length, is_empty, trim, suc, String, ◌≡◌,
  refl, ◌⊎◌, inl, inr, Bool, true, false, not, ◌&&◌, Option, none, some, eq_iff, arith,
}

prop_of-set_prop :
    (j k : String) (v : Json) (ps : Props)
    → prop_of j (set_prop k v ps) ≡ (if k == j then some v else prop_of j ps)
unfolding set_prop
prop_of-set_prop j k v end = refl
prop_of-set_prop j k v (prop i w ps) =
    ground (arith, eq_iff k j, eq_iff i k, eq_iff i j, prop_of-set_prop j k v ps)

prop_of-delete_prop :
    (j k : String) (ps : Props)
    → prop_of j (delete_prop k ps) ≡ (if k == j then none else prop_of j ps)
unfolding delete_prop
prop_of-delete_prop j k end = ground arith
prop_of-delete_prop j k (prop i w ps) =
    ground (arith, eq_iff k j, eq_iff i k, eq_iff i j, prop_of-delete_prop j k ps)

-- the timezone that the form stands for
abbrev pub chosen_timezone : Account → Option Json
chosen_timezone a =
    if is_empty (trim a.timezone_pref) then none else some (str (trim a.timezone_pref))

-- The preferences that are saved are those of the profile in everything but the timezone, which is the
-- text of the form without the blanks around it, and is not there when nothing else is in the form.
saved_preferences_lem :
    (a : Account) (k : String)
    → prop_of k (saved_preferences a)
      ≡ (if "timezone" == k then chosen_timezone a else prop_of k (preferences_of a.profile))
unfolding saved_preferences
saved_preferences_lem a k = elim (Bool-cases (is_empty (trim a.timezone_pref))) [
  | inl blank ↦ rw (blank) (prop_of-delete_prop k "timezone" (preferences_of a.profile))
  | inr given ↦
      rw (given)
        (prop_of-set_prop k "timezone" (str (trim a.timezone_pref)) (preferences_of a.profile))
]

-- The passwords of the form are fit to be sent.
abbrev pub is_complete : Account → Bool
is_complete a =
    not (is_empty (trim a.current_password))
    && not (is_empty (trim a.new_password))
    && (a.new_password == a.confirm_password)

-- The change of a password is asked for, with both passwords as they were typed, exactly when neither is
-- blank and the new one is typed twice alike; then nothing is said, and otherwise one thing is.
change_password_iff :
    (a : Account)
    → ((is_complete a ≡ true)
        × (change_password_start a ≡ (
          a,
          some (record { current_password = a.current_password; new_password = a.new_password }),
        )))
      ⊎ ((is_complete a ≡ false)
          × ((change_password_start a).1 ≡ none)
          × (length (change_password_start a).0.said ≡ suc (length a.said)))
unfolding change_password_start
change_password_iff a = elim (Bool-cases (is_empty (trim a.current_password))) [
  | inl p ↦ inr (rw (p) refl, rw (p) refl, rw (p) refl)
  | inr p ↦ elim (Bool-cases (is_empty (trim a.new_password))) [
    | inl q ↦ inr (rw (p, q) refl, rw (p, q) refl, rw (p, q) refl)
    | inr q ↦ elim (Bool-cases (a.new_password == a.confirm_password)) [
      | inl r ↦ inl (rw (p, q, r) refl, rw (p, q, r) refl)
      | inr r ↦ inr (rw (p, q, r) refl, rw (p, q, r) refl, rw (p, q, r) refl)
    ]
  ]
]
