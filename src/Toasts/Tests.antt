-- ===== src/Toasts/Tests.antt =====
-- One toast among others (ToastProvider.tsx).
use bv_orchestrator.Toasts.{Event, pushed, expired}
use bv_orchestrator.Common.{nat_eq, string_eq, none, List, [], ◌∷◌}

abbrev others : List Event
others = pushed "b" "Saved" none ∷ expired "b" ∷ []
