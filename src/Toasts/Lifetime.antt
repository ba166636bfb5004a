-- ===== src/Toasts/Lifetime.antt =====
-- How long a toast is shown (ToastProvider.tsx).
use bv_orchestrator.Toasts.{ToastTone, info, Toast, Event, pushed, expired, step, run}
use bv_orchestrator.Common.{
  ◌==◌, nat_eq, string_eq, or_default, keep, any, every, String, ◌≡◌, refl, ◌∙◌, Bool, true, false,
  not, ◌&&◌, ◌||◌, Option, List, [], ◌∷◌, ◌++◌, eq_iff, arith,
}

abbrev pub is_shown : String → List Toast → Bool
is_shown id toasts = any (λ (t : Toast). t.id == id) toasts

-- The event is no push of a toast with the id.
abbrev pub not_pushed : String → Event → Bool
not_pushed id (pushed j title colour) = not (j == id)
not_pushed id (expired j) = true

-- The event is not the timer of the id.
abbrev pub not_expired : String → Event → Bool
not_expired id (pushed j title colour) = true
not_expired id (expired j) = not (j == id)

shown-append :
    (id : String) (toasts : List Toast) (t : Toast)
    → is_shown id (toasts ++ (t ∷ [])) ≡ is_shown id toasts || t.id == id
shown-append id [] t = ground arith
shown-append id (x ∷ toasts) t = let rest = shown-append id toasts t in ground arith

shown-keep :
    (id j : String) (toasts : List Toast)
    → is_shown id (keep (λ (t : Toast). not (t.id == j)) toasts)
      ≡ is_shown id toasts && not (j == id)
shown-keep id j [] = refl
shown-keep id j (x ∷ toasts) =
    let rest = shown-keep id j toasts in ground (arith, eq_iff x.id j, eq_iff x.id id, eq_iff j id)

step_kept :
    (id : String) (toasts : List Toast) (e : Event)
    → not_expired id e ≡ true
    → is_shown id toasts ≡ true
    → is_shown id (step toasts e) ≡ true
unfolding step
step_kept id toasts (pushed j title colour) n h = shown-append id toasts _ ∙ ground arith
step_kept id toasts (expired j) n h = shown-keep id j toasts ∙ ground arith

step_gone :
    (id : String) (toasts : List Toast) (e : Event)
    → not_pushed id e ≡ true
    → is_shown id toasts ≡ false
    → is_shown id (step toasts e) ≡ false
unfolding step
step_gone id toasts (pushed j title colour) n h = shown-append id toasts _ ∙ ground arith
step_gone id toasts (expired j) n h = shown-keep id j toasts ∙ ground arith

run_kept :
    (id : String) (toasts : List Toast) (es : List Event)
    → every (not_expired id) es ≡ true
    → is_shown id toasts ≡ true
    → is_shown id (run toasts es) ≡ true
unfolding run
run_kept id toasts [] n h = h
run_kept id toasts (e ∷ es) n h =
    run_kept id (step toasts e) es (ground arith) (step_kept id toasts e (ground arith) h)

run_gone :
    (id : String) (toasts : List Toast) (es : List Event)
    → every (not_pushed id) es ≡ true
    → is_shown id toasts ≡ false
    → is_shown id (run toasts es) ≡ false
unfolding run
run_gone id toasts [] n h = h
run_gone id toasts (e ∷ es) n h =
    run_gone id (step toasts e) es (ground arith) (step_gone id toasts e (ground arith) h)

-- A toast is shown from its push until its own timer, whatever other toasts come and go, and from its
-- timer on it is gone, as long as no other toast is given the same id.
lifetime :
    (id title : String) (colour : Option ToastTone) (toasts : List Toast)
    (during after : List Event)
    → every (not_expired id) during ≡ true
    → every (not_pushed id) after ≡ true
    → (is_shown id (run (step toasts (pushed id title colour)) during) ≡ true)
      × (is_shown id
            (run (step (run (step toasts (pushed id title colour)) during) (expired id)) after)
          ≡ false)
unfolding step
lifetime id title colour toasts during after d a =
    let toast : Toast = record { id = id; title = title; tone = or_default colour info } in
    let there : is_shown id (toasts ++ (toast ∷ [])) ≡ true =
      shown-append id toasts toast ∙ ground (arith, eq_iff id id) in
    let later = run (toasts ++ (toast ∷ [])) during in
    (
      run_kept id _ during d there,
      run_gone id _ after a (shown-keep id id later ∙ ground (arith, eq_iff id id)),
    )
