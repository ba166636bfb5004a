-- ===== src/ProcessTypes.antt =====
-- utils/processTypes.ts: the label and the colour of a process by its type.
use bv_orchestrator.Common.{
  ◌==◌, nat_eq, string_eq, if◌then◌else◌, Bool-cases, text_or, to_lower, String, ◌≡◌, refl, ◌⊎◌,
  inl, inr, Bool, Option, none, some,
}

pub data Tone : Type 0 where
  blue slate : Tone

-- `(type || '').toString().toLowerCase() === 'agent'`
unfoldable pub is_agent : Option String → Bool
unfolding to_lower
is_agent type = to_lower (text_or type "") == "agent"

unfoldable pub process_type_label : Option String → String
unfolding is_agent
process_type_label type = if is_agent type then "AGENT" else "RPA"

unfoldable pub process_type_tone : Option String → Tone
unfolding is_agent
process_type_tone type = if is_agent type then slate else blue

-- A process is labelled AGENT exactly when its label has the colour of an agent, and RPA otherwise.
process_type_lem :
    (type : Option String)
    → ((process_type_label type ≡ "AGENT") × (process_type_tone type ≡ slate))
      ⊎ ((process_type_label type ≡ "RPA") × (process_type_tone type ≡ blue))
unfolding process_type_label process_type_tone
process_type_lem type = elim (Bool-cases (is_agent type)) [
  | inl y ↦ inl (rw (y) refl, rw (y) refl)
  | inr n ↦ inr (rw (n) refl, rw (n) refl)
]

type_tests : (process_type_label (some "Agent") ≡ "AGENT") × (process_type_label none ≡ "RPA")
unfolding process_type_label
type_tests = (refl, refl)
