-- ===== src/Toasts.antt =====
-- ToastProvider.tsx: the stack of toasts; the id of a toast is made of the clock and a random number,
-- and its timer is an event.
pub mod Lifetime
pub mod Tests
use bv_orchestrator.Common.{
  ◌==◌, nat_eq, string_eq, or_default, keep, String, not, Option, List, [], ◌∷◌, ◌++◌,
}

pub data ToastTone : Type 0 where
  info success danger : ToastTone

pub record Toast : Type 0 where
  pub id : String
  pub title : String
  pub tone : ToastTone

pub data Event : Type 0 where
  pushed : (id title : String) → (colour : Option ToastTone) → Event
  expired : (id : String) → Event

unfoldable pub step : List Toast → Event → List Toast
step toasts (pushed id title colour) =
    toasts ++ (record { id = id; title = title; tone = or_default colour info } ∷ [])
step toasts (expired id) = keep (λ (t : Toast). not (t.id == id)) toasts

unfoldable pub run : List Toast → List Event → List Toast
unfolding step
run toasts [] = toasts
run toasts (e ∷ es) = run (step toasts e) es
