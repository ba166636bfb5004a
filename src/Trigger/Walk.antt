-- ===== src/Trigger/Walk.antt =====
-- Where the walked list's mark may stand, and what Enter does there (`SearchableSelect` of
-- TriggerModal.tsx).
use bv_orchestrator.Trigger.Select.{
  Choice, Select, Key, enter, arrow_down, arrow_up, escape, other, Pressed, pressed, type_error,
  filtered, handle_key_down, Event, key_down, typed, debounced, focused, blurred, clicked, step,
  min_ℤ, max_ℤ, last_index, closed_key, open_key, enter_at, choose,
}
use bv_orchestrator.Common.Int.{ℤ, pos, negsuc, ◌+ℤ◌}
use bv_orchestrator.Common.{
  ◌==◌, nat_eq, string_eq, if_intro, length, get_elem?, ℕ, zero, suc, ◌<◌, ◌≡◌, refl, ◌⊎◌, inl, inr,
  Option, none, some, List, [], ◌∷◌, arith,
}

-- A place of a list of `n` options, or none; with no options the first place counts.
abbrev pub IsPlace : ℕ → ℤ → Type 0
IsPlace n (negsuc i) = Unit
IsPlace n (pos i) = (i < n) ⊎ (i ≡ 0)

abbrev pub IsMarked : List Choice → Select → Type 0
IsMarked options s = IsPlace (length (filtered options s)) s.selected_index

-- What a press leaves is marked, if it leaves anything.
abbrev pub Leaves : List Choice → Pressed → Type 0
Leaves options type_error = Unit
Leaves options (pressed chosen s) = IsMarked options s

zero-IsPlace : (n : ℕ) → IsPlace n (pos 0)
zero-IsPlace n = inr refl

at_most-IsPlace : (n : ℕ) (z : ℤ) → IsPlace n (min_ℤ z (last_index n))
at_most-IsPlace zero (pos i) = ground arith
at_most-IsPlace zero (negsuc i) = ground arith
at_most-IsPlace (suc n) (pos i) = ground arith
at_most-IsPlace (suc n) (negsuc i) = ground arith

at_least-IsPlace : (n : ℕ) (z : ℤ) → IsPlace n z → IsPlace n (max_ℤ z (pos 0))
at_least-IsPlace n (pos i) h = ground arith
at_least-IsPlace n (negsuc i) h = ground arith

before_step : (i : ℕ) → (pos (suc i) +ℤ negsuc 0) ≡ pos i
unfolding ◌+ℤ◌
before_step i = ground arith

below_step : (n i : ℕ) → IsPlace n (negsuc i +ℤ negsuc 0)
unfolding ◌+ℤ◌
below_step n i = ground arith

below_zero : (n : ℕ) → IsPlace n (pos 0 +ℤ negsuc 0)
unfolding ◌+ℤ◌
below_zero n = tt

previous-IsPlace : (n : ℕ) (z : ℤ) → IsPlace n z → IsPlace n (z +ℤ negsuc 0)
previous-IsPlace n (negsuc i) h = below_step n i
previous-IsPlace n (pos zero) h = below_zero n
previous-IsPlace n (pos (suc i)) (inl h) = rw (before_step i) (inl (omega (arith, h)))
previous-IsPlace n (pos (suc i)) (inr h) = absurd (omega (arith, h))

choose-Leaves :
    (options : List Choice) (o : Option Choice) (s : Select)
    → IsMarked options s
    → Leaves options (choose o s)
unfolding filtered
choose-Leaves options none s h = tt
choose-Leaves options (some o) s h = h

enter_at-Leaves :
    (options : List Choice) (z : ℤ) (s : Select)
    → IsMarked options s
    → Leaves options (enter_at (filtered options s) z s)
enter_at-Leaves options (pos i) s h = choose-Leaves options (get_elem? (filtered options s) i) s h
enter_at-Leaves options (negsuc i) s h = h

open_key-Leaves :
    (options : List Choice) (k : Key) (s : Select)
    → IsMarked options s
    → Leaves options (open_key (filtered options s) k s)
unfolding filtered
open_key-Leaves options enter s h = enter_at-Leaves options s.selected_index s h
open_key-Leaves options arrow_down s h =
    at_most-IsPlace (length (filtered options s)) (s.selected_index +ℤ pos 1)
open_key-Leaves options arrow_up s h =
    at_least-IsPlace _ (s.selected_index +ℤ negsuc 0) (previous-IsPlace _ s.selected_index h)
open_key-Leaves options escape s h = h
open_key-Leaves options other s h = h

closed_key-Leaves :
    (options : List Choice) (k : Key) (s : Select)
    → IsMarked options s
    → Leaves options (closed_key k s)
unfolding filtered
closed_key-Leaves options enter s h = zero-IsPlace _
closed_key-Leaves options arrow_down s h = zero-IsPlace _
closed_key-Leaves options arrow_up s h = h
closed_key-Leaves options escape s h = h
closed_key-Leaves options other s h = h

step-Leaves :
    (options : List Choice) (e : Event) (s : Select)
    → IsMarked options s
    → Leaves options (step options e s)
unfolding step handle_key_down filtered
step-Leaves options (key_down k) s h =
    if_intro (Leaves options) s.is_open (open_key-Leaves options k s h)
      (closed_key-Leaves options k s h)
step-Leaves options (typed text) s h = h
step-Leaves options debounced s h = if_intro (Leaves options) (s.search == s.debounced_search) h tt
step-Leaves options focused s h = h
step-Leaves options blurred s h = h
step-Leaves options (clicked o) s h = h

-- The state after some events, if no event ended in the TypeError.
abbrev pub after : List Choice → List Event → Pressed → Pressed
after options es type_error = type_error
after options [] (pressed chosen s) = pressed chosen s
after options (e ∷ es) (pressed chosen s) = after options es (step options e s)

pub after-Leaves :
    (options : List Choice) (es : List Event) (p : Pressed)
    → Leaves options p
    → Leaves options (after options es p)
after-Leaves options [] type_error h = h
after-Leaves options (e ∷ es) type_error h = h
after-Leaves options [] (pressed chosen s) h = h
after-Leaves options (e ∷ es) (pressed chosen s) h =
    after-Leaves options es (step options e s) (step-Leaves options e s h)
