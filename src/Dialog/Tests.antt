-- ===== src/Dialog/Tests.antt =====
-- Dialogs one after the other, and one over another (DialogProvider.tsx).
use bv_orchestrator.Dialog.{acknowledged, alerted, confirmed, accepted, cancelled, run}
use bv_orchestrator.Dialog.Promises.{idle, is_settled, confirm_over_alert}
use bv_orchestrator.Common.{nat_eq, string_eq, ◌≡◌, refl, false, [], ◌∷◌}

confirm_over_alert_example :
    (run (idle 0 []) (alerted "a" "b" ∷ confirmed "c" "d" ∷ accepted ∷ [])
      ≡ idle 2 ((0, acknowledged) ∷ []))
    × (is_settled 1
          (run
            (idle 0 [])
            (alerted "a" "b" ∷ confirmed "c" "d" ∷ accepted ∷ cancelled ∷ [])).settled
        ≡ false)
confirm_over_alert_example = confirm_over_alert 0 [] "a" "b" "c" "d" (cancelled ∷ []) refl
