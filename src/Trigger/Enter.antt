-- ===== src/Trigger/Enter.antt =====
-- What Enter does in the walked list (`SearchableSelect` of TriggerModal.tsx).
use bv_orchestrator.Trigger.Select.{
  Choice, Select, Key, enter, arrow_down, arrow_up, escape, other, Pressed, pressed, type_error,
  matches, filtered, handle_key_down, Event, key_down, typed, debounced, focused, blurred, clicked,
  step, initial, max_ℤ, closed_key, open_key, enter_at, choose,
}
use bv_orchestrator.Trigger.Walk.{IsPlace, IsMarked, Leaves, after, after-Leaves}
use bv_orchestrator.Common.Int.{ℤ, pos, negsuc, ◌+ℤ◌, ltb_ℤ}
use mathlib.Core.Path.{subst}
use bv_orchestrator.Common.{
  ◌==◌, nat_eq, string_eq, if_intro, length, get_elem?, get_elem?-below, keep, ℕ, ◌<◌, String, ◌≡◌,
  refl, ap, ◌≢◌, ◌⊎◌, inl, inr, true, false, Option, none, List, [], ◌∷◌, arith,
}

abbrev IsSafe : Pressed → Type 0
IsSafe p = p ≢ type_error

pressed-IsSafe : (chosen : Option String) (s : Select) → IsSafe (pressed chosen s)
pressed-IsSafe chosen s e = cc

choose-IsSafe :
    (shown : List Choice) (i : ℕ) (s : Select)
    → i < length shown
    → IsSafe (choose (get_elem? shown i) s)
choose-IsSafe shown i s h = let (o, e) = get_elem?-below shown i h in rw (e) (pressed-IsSafe _ _)

-- The first place is one when there are options.
filled :
    (shown : List Choice) (i : ℕ) → shown ≢ [] → (i < length shown) ⊎ (i ≡ 0) → i < length shown
filled shown i h (inl k) = k
filled [] i h (inr k) = absurd (h refl)
filled (o ∷ shown) i h (inr k) = omega (arith, k)

enter_at-IsSafe :
    (shown : List Choice) (z : ℤ) (s : Select)
    → shown ≢ []
    → IsPlace (length shown) z
    → IsSafe (enter_at shown z s)
enter_at-IsSafe shown (pos i) s h k = choose-IsSafe shown i s (filled shown i h k)
enter_at-IsSafe shown (negsuc i) s h k = pressed-IsSafe _ _

open_key-IsSafe :
    (shown : List Choice) (k : Key) (s : Select)
    → shown ≢ []
    → IsPlace (length shown) s.selected_index
    → IsSafe (open_key shown k s)
open_key-IsSafe shown enter s h k = enter_at-IsSafe shown s.selected_index s h k
open_key-IsSafe shown arrow_down s h k = pressed-IsSafe _ _
open_key-IsSafe shown arrow_up s h k = pressed-IsSafe _ _
open_key-IsSafe shown escape s h k = pressed-IsSafe _ _
open_key-IsSafe shown other s h k = pressed-IsSafe _ _

closed_key-IsSafe : (k : Key) (s : Select) → IsSafe (closed_key k s)
closed_key-IsSafe enter s = pressed-IsSafe _ _
closed_key-IsSafe arrow_down s = pressed-IsSafe _ _
closed_key-IsSafe arrow_up s = pressed-IsSafe _ _
closed_key-IsSafe escape s = pressed-IsSafe _ _
closed_key-IsSafe other s = pressed-IsSafe _ _

step-IsSafe :
    (options : List Choice) (e : Event) (s : Select)
    → filtered options s ≢ []
    → IsMarked options s
    → IsSafe (step options e s)
unfolding step handle_key_down
step-IsSafe options (key_down k) s h m =
    if_intro IsSafe s.is_open (open_key-IsSafe (filtered options s) k s h m) (closed_key-IsSafe k s)
step-IsSafe options (typed text) s h m = pressed-IsSafe _ _
step-IsSafe options debounced s h m =
    if_intro IsSafe (s.search == s.debounced_search) (pressed-IsSafe _ _) (pressed-IsSafe _ _)
step-IsSafe options focused s h m = pressed-IsSafe _ _
step-IsSafe options blurred s h m = pressed-IsSafe _ _
step-IsSafe options (clicked o) s h m = pressed-IsSafe _ _

-- After any events that began with the closed list, no event ends in a TypeError as long as the search
-- leaves an option to show.
pub select-IsSafe :
    (options : List Choice) (es : List Event) (chosen : Option String) (s : Select) (e : Event)
    → after options es (pressed none initial) ≡ pressed chosen s
    → filtered options s ≢ []
    → step options e s ≢ type_error
unfolding filtered
select-IsSafe options es chosen s e h shown =
    let marked : Leaves options (pressed chosen s) =
      subst (Leaves options) h (after-Leaves options es (pressed none initial) tt) in
    step-IsSafe options e s shown marked

nowhere : (i : ℤ) (s : Select) → ltb_ℤ i (pos 0) ≡ false → enter_at [] i s ≡ type_error
nowhere (pos i) s h = refl
nowhere (negsuc i) s h = ground arith

not_negative : (z : ℤ) → ltb_ℤ (max_ℤ z (pos 0)) (pos 0) ≡ false
not_negative (pos i) = ground arith
not_negative (negsuc i) = ground arith

enter_up :
    (shown : List Choice) (z : ℤ) (s : Select)
    → shown ≡ []
    → enter_at shown (max_ℤ z (pos 0)) s ≡ type_error
enter_up [] z s h = nowhere (max_ℤ z (pos 0)) s (not_negative z)
enter_up (o ∷ shown) z s h = cc

-- Where the search leaves no option to show, ArrowUp and then Enter in the open list end in the
-- TypeError of reading the value of an option that is not there.
up-enter_fails :
    (options : List Choice) (text debounced_search : String) (z : ℤ)
    → keep (matches debounced_search) options ≡ []
    → after options (key_down arrow_up ∷ key_down enter ∷ []) (
        pressed none (record {
          is_open = true;
          search = text;
          debounced_search = debounced_search;
          selected_index = z;
        }))
      ≡ type_error
unfolding step handle_key_down filtered
up-enter_fails options text debounced_search z none_shown =
    let s : Select = record {
      is_open = true;
      search = text;
      debounced_search = debounced_search;
      selected_index = max_ℤ (z +ℤ negsuc 0) (pos 0);
    } in
    ap (after options [])
      (enter_up (keep (matches debounced_search) options) (z +ℤ negsuc 0) s none_shown)
