-- ===== src/Trigger/Select.antt =====
-- TriggerModal.tsx: `SearchableSelect`, a list that is searched by typing and walked with the keys.
use bv_orchestrator.Common.Int.{ℤ, pos, negsuc, ◌+ℤ◌, ltb_ℤ}
use bv_orchestrator.Common.{
  ◌==◌, nat_eq, string_eq, if◌then◌else◌, length, get_elem?, keep, to_lower, includes, ℕ, zero, suc,
  String, Bool, true, false, ◌||◌, Option, none, some, List,
}

pub record Choice : Type 0 where
  pub value : String
  pub label : String

pub record Select : Type 0 where
  pub is_open : Bool
  pub search : String
  pub debounced_search : String
  pub selected_index : ℤ

pub data Key : Type 0 where
  enter arrow_down arrow_up escape other : Key

-- What a key press comes to: a new state with the value handed to `onChange`, if any, or the
-- TypeError of reading `value` of an option that is not there.
pub data Pressed : Type 0 where
  pressed : (chosen : Option String) → Select → Pressed
  type_error : Pressed

unfoldable pub matches : String → Choice → Bool
unfolding to_lower
matches search o =
    includes (to_lower o.label) (to_lower search) || includes (to_lower o.value) (to_lower search)

unfoldable pub filtered : List Choice → Select → List Choice
unfolding matches
filtered options s = keep (matches s.debounced_search) options

-- `Math.min` and `Math.max`
abbrev pub min_ℤ : ℤ → ℤ → ℤ
min_ℤ a b = if ltb_ℤ b a then b else a

abbrev pub max_ℤ : ℤ → ℤ → ℤ
max_ℤ a b = if ltb_ℤ a b then b else a

-- `length - 1`
abbrev pub last_index : ℕ → ℤ
last_index zero = negsuc 0
last_index (suc n) = pos n

abbrev close : Select → Select
close s = record s { is_open = false; search = "" }

abbrev pub choose : Option Choice → Select → Pressed
choose none s = type_error
choose (some o) s = pressed (some o.value) (close s)

abbrev pub enter_at : List Choice → ℤ → Select → Pressed
enter_at shown (pos i) s = choose (get_elem? shown i) s
enter_at shown (negsuc i) s = pressed none s

abbrev pub open_key : List Choice → Key → Select → Pressed
open_key shown enter s = enter_at shown s.selected_index s
open_key shown arrow_down s =
    pressed none
      (record s { selected_index = min_ℤ (s.selected_index +ℤ pos 1) (last_index (length shown)) })
open_key shown arrow_up s =
    pressed none (record s { selected_index = max_ℤ (s.selected_index +ℤ negsuc 0) (pos 0) })
open_key shown escape s = pressed none (close s)
open_key shown other s = pressed none s

abbrev pub closed_key : Key → Select → Pressed
closed_key enter s = pressed none (record s { is_open = true; selected_index = pos 0 })
closed_key arrow_down s = pressed none (record s { is_open = true; selected_index = pos 0 })
closed_key _ s = pressed none s

-- `handleKeyDown`
unfoldable pub handle_key_down : List Choice → Key → Select → Pressed
unfolding filtered ◌+ℤ◌
handle_key_down options key s =
    if s.is_open then open_key (filtered options s) key s else closed_key key s

-- The other events: typing, the timer of 200 ms that takes the search over (with the effect that it
-- sets off), focus, the blur's timer, and the mouse on an option.
pub data Event : Type 0 where
  key_down : Key → Event
  typed : String → Event
  debounced focused blurred : Event
  clicked : Choice → Event

unfoldable pub step : List Choice → Event → Select → Pressed
unfolding handle_key_down
step options (key_down k) s = handle_key_down options k s
step options (typed text) s = pressed none (record s { search = text })
step options debounced s =
    if s.search == s.debounced_search
    then pressed none s
    else pressed none (record s { debounced_search = s.search; selected_index = negsuc 0 })
step options focused s = pressed none (record s { is_open = true })
step options blurred s = pressed none (record s { is_open = false })
step options (clicked o) s = pressed (some o.value) (close s)

abbrev pub initial : Select
initial = record { is_open = false; search = ""; debounced_search = ""; selected_index = negsuc 0 }
