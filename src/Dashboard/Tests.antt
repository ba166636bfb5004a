-- ===== src/Dashboard/Tests.antt =====
-- The dashboard on a concrete answer (api/dashboard.ts, DashboardPage.tsx).
use bv_orchestrator.Json.{Json, obj, end, prop, num, str, to_text}
use bv_orchestrator.Common.Number.{int, to_number}
use bv_orchestrator.Common.Int.{pos}
use bv_orchestrator.Dashboard.{
  JobHistory, Arc, count_at, first_of, job_history, job_status_counts, arcs_from, arcs,
}
use bv_orchestrator.Dashboard.Ring.{Tiles, arcs-Tiles}
use bv_orchestrator.Common.{nat_eq, string_eq, ℕ, ◌≡◌, refl, [], ◌∷◌, map, arith}

overview : Unit {0}
unfolding to_number to_text count_at first_of job_history job_status_counts arcs_from arcs
overview = tt

abbrev body : Json
body = obj (
    prop "job_history24h" (obj (prop "total" (num (int (pos 5))) (prop "failed" (str "2") end)))
      end)

counts_test :
    ((job_history body).total ≡ int (pos 5))
    × ((job_history body).failed ≡ int (pos 2))
    × ((job_history body).stopped ≡ int (pos 0))
    × ((job_status_counts body).running ≡ int (pos 0))
unfolding overview
counts_test = (refl, refl, refl, refl)

abbrev day : JobHistory ℕ
day = record { total = 5; success = 3; failed = 0; stopped = 2 }

arcs_test :
    map {B = ℕ × ℕ} (λ (a : Arc). (a.offset.parts, a.offset.whole)) (arcs day)
    ≡ (0, 1) ∷ (3, 5) ∷ []
unfolding overview
arcs_test = refl

arcs-Tiles_example : Tiles 5 0 5 (arcs day)
arcs-Tiles_example = arcs-Tiles day (omega arith)
