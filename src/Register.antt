-- ===== src/Register.antt =====
-- Register.tsx: the form of a new account, its check, and its request up to the answer and after it.
pub mod Accepts
pub mod Tests
use bv_orchestrator.Common.Pattern.{codes, Piece, one, some_of, test}
use bv_orchestrator.Json.{Json, get, truthy, to_text}
use bv_orchestrator.Common.{
  leb, ◌==◌, nat_eq, string_eq, if◌then◌else◌, is_some, length, any, every, is_empty, or_text, trim,
  is_space, is_digit, is_lower, is_upper, ℕ, ◌-◌, String, Bool, true, false, not, ◌&&◌, ◌||◌,
  Option, none, some, List, [], ◌∷◌,
}

pub record FormState : Type 0 where
  pub full_name : String
  pub username : String
  pub email : String
  pub password : String
  pub confirm_password : String
  pub organization : String
  pub role : String
  pub accept_terms : Bool

pub record FormErrors : Type 0 where
  pub full_name : Option String
  pub username : Option String
  pub email : Option String
  pub password : Option String
  pub confirm_password : Option String
  pub accept_terms : Option String
  pub general : Option String

abbrev pub no_errors : FormErrors
no_errors = record {
  full_name = none;
  username = none;
  email = none;
  password = none;
  confirm_password = none;
  accept_terms = none;
  general = none;
}

-- The state of the page, with the hash.
pub record Register : Type 0 where
  pub form : FormState
  pub errors : FormErrors
  pub submitting : Bool
  pub hash : String

-- `[a-zA-Z0-9_-]`
abbrev pub is_word : ℕ → Bool
is_word c = is_lower c || is_upper c || is_digit c || c == b'_' || c == b'-'

-- `usernameRegex.test(s)`
unfoldable pub is_username : String → Bool
is_username s = let cs = codes s in every is_word cs && leb 3 (length cs) && leb (length cs) 32

-- `[^\s@]`
abbrev pub is_mail_char : ℕ → Bool
is_mail_char c = not (is_space c) && not (c == b'@')

abbrev pub email_regex : List Piece
email_regex =
    some_of is_mail_char
    ∷ one (λ c. c == b'@')
    ∷ some_of is_mail_char
    ∷ one (λ c. c == b'.')
    ∷ some_of is_mail_char
    ∷ []

-- `emailRegex.test(s)`
unfoldable pub is_email : String → Bool
unfolding test
is_email s = test email_regex (codes s)

-- what `.` does not match
abbrev pub is_line_end : ℕ → Bool
is_line_end c = c == 10 || c == 13 || c == 8232 || c == 8233

-- `passwordRegex.test(s)`: a lookahead `.*` sees the whole text, since the rest of the expression allows
-- no end of a line in it.
unfoldable pub is_password : String → Bool
is_password s =
    let cs = codes s in
    any is_lower cs
    && any is_upper cs
    && any is_digit cs
    && every (λ c. not (is_line_end c)) cs
    && leb 8 (length cs)
    && leb (length cs) 32

abbrev pub unless : Bool → String → Option String
unless true message = none
unless false message = some message

-- `nextErrors` of `validate`
unfoldable pub form_errors : FormState → FormErrors
unfolding is_username is_email is_password
form_errors form = record no_errors {
  full_name = unless (not (is_empty (trim form.full_name))) "Full name is required.";
  username =
      unless (is_username form.username)
        "Username must be 3–32 characters, letters, digits, _ or -.";
  email = unless (is_email form.email) "Enter a valid email address.";
  password =
      unless (is_password form.password)
        "Password must be 8–32 chars, with upper, lower and a digit.";
  confirm_password = unless (form.confirm_password == form.password) "Passwords must match.";
  accept_terms = unless form.accept_terms "You must accept the terms.";
}

-- `Object.keys(nextErrors).length === 0`
unfoldable pub is_clean : FormErrors → Bool
is_clean e =
    not (is_some e.full_name)
    && not (is_some e.username)
    && not (is_some e.email)
    && not (is_some e.password)
    && not (is_some e.confirm_password)
    && not (is_some e.accept_terms)
    && not (is_some e.general)

-- the body of the request
pub record Registration : Type 0 where
  pub full_name : String
  pub username : String
  pub email : String
  pub password : String
  pub organization : String
  pub role : String

abbrev pub registration_of : FormState → Registration
registration_of form = record {
  full_name = form.full_name;
  username = form.username;
  email = form.email;
  password = form.password;
  organization = form.organization;
  role = form.role;
}

-- `handleSubmit` up to its request
unfoldable pub submit : Register → Option Registration × Register
unfolding form_errors is_clean
submit v =
    if is_clean (form_errors v.form)
    then (some (registration_of v.form), record v { submitting = true; errors = no_errors })
    else (none, record v { errors = form_errors v.form })

-- What the request comes to; the body of a refusal is `none` where it is no JSON, and to read it again as a
-- text throws the message `again`.
pub data Registered : Type 0 where
  registered : Registered
  refused : (body : Option Json) (again : String) → Registered
  failed : (message : String) → Registered

abbrev detail_of : Json → String
detail_of body = elim (get "detail" body) [
  | some d ↦ if truthy d then to_text d else "Registration failed"
  | none ↦ "Registration failed"
]

-- the message of what is thrown, `none` for a success
unfoldable pub thrown : Registered → Option String
thrown registered = none
thrown (refused (some body) again) = some (detail_of body)
thrown (refused none again) = some again
thrown (failed m) = some m

-- the end of `handleSubmit`
unfoldable pub submit_finish : Registered → Register → Register
unfolding thrown
submit_finish a v = elim (thrown a) [
  | none ↦ record v { submitting = false; hash = "#/register-success" }
  | some m ↦ record v {
    submitting = false;
    errors = record no_errors {
      general = some (or_text m "Registration failed. Please try again.");
    };
  }
]
