-- ===== src/Register/Tests.antt =====
-- The form of Register.tsx on concrete fields.
use bv_orchestrator.Json.{obj, end, prop, str, to_text}
use bv_orchestrator.Register.{
  no_errors, Register, is_email, is_username, is_password, form_errors, is_clean, submit, refused,
  thrown, submit_finish,
}
use bv_orchestrator.Register.Accepts.{register_iff, IsFilled}
use bv_orchestrator.Common.{
  nat_eq, string_eq, is_some, trim, is_space, ◌≡◌, refl, ◌↔◌, true, false, some, [], ◌∷◌,
}

register : Unit {0}
unfolding is_username is_email is_password is_space trim form_errors is_clean submit thrown
    submit_finish to_text
register = tt

addresses_test :
    (is_email "ann@bv.example.org" ≡ true)
    × (is_email "ann@bv" ≡ false)
    × (is_email "a b@bv.org" ≡ false)
    × (is_email "ann@@bv.org" ≡ false)
    × (is_email "ann@.org" ≡ false)
unfolding register
addresses_test = (refl, refl, refl, refl, refl)

abbrev page : Register
page = record {
  form = record {
    full_name = "Ann";
    username = "ann_1";
    email = "a@b.c";
    password = "Secret12";
    confirm_password = "Secret12";
    organization = "";
    role = "";
    accept_terms = true;
  };
  errors = no_errors;
  submitting = false;
  hash = "#/register";
}

refused_test :
    (submit_finish (refused (some (obj (prop "detail" (str "taken") end))) "") page).errors.general
    ≡ some "taken"
unfolding register
refused_test = refl

register_iff_example :
    ((is_some (submit page).0 ≡ true) ↔ IsFilled page.form)
    × (is_clean (submit page).1.errors ≡ is_some (submit page).0)
register_iff_example = register_iff page

sent_test : is_some (submit page).0 ≡ true
unfolding register
sent_test = (register_iff page).0.1 (
  refl,
  refl,
  (b'a' ∷ [], b'b' ∷ [], b'c' ∷ [], (refl, refl), (refl, refl), (refl, refl), refl),
  refl,
  refl,
  refl,
)
