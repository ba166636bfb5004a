-- ===== src/Avatar.antt =====
-- Avatar.tsx: the letter and the colour of a user without a picture. A seed is read by the codes of
-- its characters, which are its UTF-16 units up to the code 65535.
pub mod Polynomial
pub mod Tests
use bv_orchestrator.Common.Int.{ℤ, pos, negsuc, ◌+ℤ◌, ◌-ℤ◌, sub_ℕ, pos_part, neg_part}
use bv_orchestrator.Common.{
  ltb, nat_eq, string_eq, if◌then◌else◌, or_default, length, get_elem?, ◌+++◌, is_empty, or_text,
  text_or, trim, upper_char, ℕ, ◌+◌, ◌-◌, ◌*◌, ◌%◌, ◌^◌, code, String, ◌≡◌, refl, Option, List, [],
  ◌∷◌,
}

abbrev pub palette : List String
palette =
    "#2563eb" ∷ "#10b981" ∷ "#f59e0b" ∷ "#ef4444" ∷ "#8b5cf6" ∷ "#14b8a6" ∷ "#f97316" ∷ "#0ea5e9"
    ∷ "#22c55e" ∷ "#e11d48" ∷ []

-- z modulo 2^32, of an integer
abbrev pub wrapped : ℤ → ℕ
wrapped (pos n) = n % 2 ^ 32
wrapped (negsuc n) = 2 ^ 32 - 1 - n % 2 ^ 32

-- `z | 0`
unfoldable pub to_int32 : ℤ → ℤ
to_int32 z = if ltb (wrapped z) (2 ^ 31) then pos (wrapped z) else sub_ℕ (wrapped z) (2 ^ 32)

-- `z << 5`, of a 32-bit integer
abbrev pub shift_5 : ℤ → ℤ
shift_5 z = to_int32 (sub_ℕ (pos_part z * 32) (neg_part z * 32))

-- the body of the loop
unfoldable pub hash_step : ℤ → ℕ → ℤ
unfolding to_int32 ◌+ℤ◌ ◌-ℤ◌
hash_step hash c = to_int32 (shift_5 hash -ℤ hash +ℤ pos c)

unfoldable pub hash_of : ℤ → String → ℤ
unfolding hash_step
hash_of hash String.[] = hash
hash_of hash (String.◌∷◌ c s) = hash_of (hash_step hash (code c)) s

-- `Math.abs`
abbrev pub abs : ℤ → ℕ
abs z = pos_part z + neg_part z

unfoldable pub hash_to_index : String → ℕ
unfolding hash_of
hash_to_index seed = abs (hash_of (pos 0) seed) % length palette

hash_test : (hash_of (pos 0) "7:ann.smith" ≡ pos 912881203) × (hash_to_index "ab" ≡ 5)
unfolding hash_to_index
hash_test = (refl, refl)

pub record AvatarUser : Type 0 where
  pub id : Option String
  pub username : String
  pub display_name : Option String
  pub full_name : Option String
  pub avatar_url : Option String

-- `s[0].toUpperCase()`, of a text that is not empty
unfoldable first_upper : String → String
unfolding upper_char
first_upper String.[] = ""
first_upper (String.◌∷◌ c s) = String.◌∷◌ (upper_char c) ""

unfoldable pub initial_from : AvatarUser → String
unfolding trim first_upper
initial_from user =
    let display = trim (text_or user.display_name (text_or user.full_name "")) in
    if is_empty display then first_upper (or_text user.username "U") else first_upper display

unfoldable pub seed_of : AvatarUser → String
unfolding initial_from
seed_of user = or_text (or_default user.id "" +++ ":" +++ user.username) (initial_from user)

unfoldable pub color_of : AvatarUser → Option String
unfolding hash_to_index seed_of
color_of user = get_elem? palette (hash_to_index (seed_of user))
