-- ===== src/Dashboard/Ring.antt =====
-- The ring of the last day's jobs (DashboardPage.tsx).
use bv_orchestrator.Dashboard.{
  JobHistory, Segment, Arc, legend, segments, add_part, arcs_from, arcs,
}
use mathlib.Core.Path.{subst}
use bv_orchestrator.Common.{
  ltb, nat_eq, string_eq, keep, every, Bool-cases, inl, inr, ap, ℕ, ◌+◌, ◌*◌, ◌==◌, ◌<◌, ◌≡◌, refl,
  Bool, true, List, [], ◌∷◌, arith,
}

-- From the one count of jobs to the other, out of a total: each arc starts at the fraction of the ring that the jobs
-- before it are of the total, is as long as the fraction that its own jobs are, and has a job.
abbrev pub Tiles : ℕ → ℕ → ℕ → List Arc → Type 0
Tiles total from to [] = from ≡ to
Tiles total from to (a ∷ as') =
    (0 < a.offset.whole)
    × (a.offset.parts * total ≡ from * a.offset.whole)
    × (a.length ≡ record { parts = a.segment.value; whole = total })
    × (0 < a.segment.value)
    × Tiles total (from + a.segment.value) to as'

abbrev sum_of : List Segment → ℕ
sum_of [] = 0
sum_of (s ∷ ss) = s.value + sum_of ss

next_lem :
    (total from v : ℕ)
    → 0 < total
    → add_part (record { parts = from; whole = total }) (record { parts = v; whole = total })
      ≡ record { parts = from + v; whole = total }
next_lem total from v h = let same : (total == total) ≡ true = ground arith in rw (same) refl

first_lem :
    (total v : ℕ)
    → add_part (record { parts = 0; whole = 1 }) (record { parts = v; whole = total })
      ≡ record { parts = v; whole = total }
first_lem total v = elim (Bool-cases (1 == total)) [
  | inl same ↦
      (let e : 1 ≡ total = ground arith in
        let z : 0 + v ≡ v = omega arith in
        rw (same) (rw (z) (ap (λ n. record { parts = v; whole = n }) e)))
  | inr other ↦
      (let x : 0 * total + v * 1 ≡ v = omega arith in
        let y : 1 * total ≡ total = omega arith in rw (other) (rw (x, y) refl))
]

from_lem :
    (total from : ℕ) (ss : List Segment)
    → 0 < total
    → every (λ (s : Segment). ltb 0 s.value) ss ≡ true
    → Tiles total from
        (from + sum_of ss)
        (arcs_from total (record { parts = from; whole = total }) ss)
unfolding arcs_from
from_lem total from [] h k = omega arith
from_lem total from (s ∷ ss) h k =
    let on : ltb 0 total ≡ true = ground arith in
    let e : from + (s.value + sum_of ss) ≡ from + s.value + sum_of ss = omega arith in
    rw (on, e)
      (rw (next_lem total from s.value h)
        (h, refl, refl, ground arith, from_lem total (from + s.value) ss h (ground arith)))

start_lem :
    (total : ℕ) (ss : List Segment)
    → 0 < total
    → every (λ (s : Segment). ltb 0 s.value) ss ≡ true
    → Tiles total 0 (sum_of ss) (arcs_from total (record { parts = 0; whole = 1 }) ss)
unfolding arcs_from
start_lem total [] h k = refl
start_lem total (s ∷ ss) h k =
    let on : ltb 0 total ≡ true = ground arith in
    let z : 0 + s.value ≡ s.value = omega arith in
    let rest = from_lem total s.value ss h (ground arith) in
    rw (on)
      (rw (first_lem total s.value) (omega arith, omega arith, refl, ground arith, rw (z) rest))

abbrev is_there : Segment → Bool
is_there s = ltb 0 s.value

sum_kept : (ss : List Segment) → sum_of (keep is_there ss) ≡ sum_of ss
sum_kept [] = refl
sum_kept (s ∷ ss) = let rest = sum_kept ss in ground arith

every_kept : (ss : List Segment) → every is_there (keep is_there ss) ≡ true
every_kept [] = refl
every_kept (s ∷ ss) = let rest = every_kept ss in ground arith

-- With jobs in the last day, the arcs of the ring stand end to end from its top, each of them as long as the fraction
-- of the ring that its jobs are of the total, and none of them empty; they end where the three counts together do.
pub arcs-Tiles :
    (h : JobHistory ℕ) → 0 < h.total → Tiles h.total 0 (h.success + h.failed + h.stopped) (arcs h)
unfolding arcs
arcs-Tiles h k =
    let all : sum_of (segments h) ≡ h.success + h.failed + h.stopped =
      omega (arith, sum_kept (legend h)) in
    subst (λ n. Tiles h.total 0 n (arcs h)) all
      (start_lem h.total (segments h) k (every_kept (legend h)))
