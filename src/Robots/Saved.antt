-- ===== src/Robots/Saved.antt =====
-- When a robot can be saved (RobotsPage.tsx).
use bv_orchestrator.Robots.{Robot, RobotForm, opened, is_half, submit, save_start, save_form}
use bv_orchestrator.Common.{
  nat_eq, string_eq, is_some, Bool-cases, is_empty, trim, String, ◌≡◌, refl, inl, inr, Bool, true,
  false, not, ◌&&◌, ◌||◌, Option, none, some,
}

-- both blank, or neither
abbrev pub same_blankness : String → String → Bool
same_blankness u p = is_empty u && is_empty p || not (is_empty u) && not (is_empty p)

same_blankness_lem : (u p : String) → same_blankness u p ≡ not (is_half u p)
same_blankness_lem u p = elim (Bool-cases (is_empty u)) [
  | inl blank ↦ elim (Bool-cases (is_empty p)) [
    | inl none_typed ↦ rw (blank, none_typed) refl
    | inr typed ↦ rw (blank, typed) refl
  ]
  | inr given ↦ elim (Bool-cases (is_empty p)) [
    | inl none_typed ↦ rw (given, none_typed) refl
    | inr typed ↦ rw (given, typed) refl
  ]
]

save_start_whole :
    (editing : Option Robot) (form : RobotForm)
    → is_half (trim form.credential_username) (trim form.credential_password) ≡ false
    → is_some (save_start editing form) ≡ true
unfolding save_start
save_start_whole none form h = refl
save_start_whole (some r) form h = rw (h) refl

-- A form is saved, for a new robot as for one that is edited, exactly when its name is not blank and the
-- username and the password are both blank or both not.
save_form_iff :
    (editing : Option Robot) (form : RobotForm)
    → is_some (save_form editing form) ≡ (
        not (is_empty (trim form.name))
        && same_blankness (trim form.credential_username) (trim form.credential_password))
unfolding save_form submit
save_form_iff editing form =
    rw (same_blankness_lem (trim form.credential_username) (trim form.credential_password))
      (elim (Bool-cases (is_empty (trim form.name))) [
        | inl blank ↦ rw (blank) refl
        | inr named ↦
            elim (Bool-cases
              (is_half (trim form.credential_username) (trim form.credential_password))) [
                | inl half ↦ rw (named, half) refl
                | inr whole ↦ rw (named, whole) (save_start_whole editing form whole)
              ]
      ])

-- A robot with a username that is not blank: whatever else is changed in its form, it is not saved as long as
-- no password is typed, since the form fills in the username but not the password.
reopened_robot :
    (r : Robot) (u name machine_info : String)
    → r.username ≡ some u
    → is_empty (trim u) ≡ false
    → save_form (some r) (record (opened (some r)) { name = name; machine_info = machine_info })
      ≡ none
unfolding save_form submit save_start opened trim
reopened_robot r u name machine_info has_user given = elim (Bool-cases (is_empty (trim name))) [
  | inl blank ↦ rw (blank) refl
  | inr named ↦ rw (named, has_user, given) refl
]
