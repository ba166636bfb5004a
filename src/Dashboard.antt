-- ===== src/Dashboard.antt =====
-- api/dashboard.ts with types/dashboard.ts, and the panel of the last day in DashboardPage.tsx.
pub mod Ring
pub mod Tests
use bv_orchestrator.Json.{Json, null, number_of, get, truthy, to_text}
use bv_orchestrator.Common.Number.{Number, int, to_number}
use bv_orchestrator.Common.Int.{pos}
use bv_orchestrator.Common.{
  ltb, nat_eq, string_eq, if◌then◌else◌, or_default, keep, ℕ, ◌+◌, ◌*◌, ◌==◌, String, Option, none,
  some, List, [], ◌∷◌,
}

pub record JobHistory (A : Type 0) : Type 0 where
  pub total : A
  pub success : A
  pub failed : A
  pub stopped : A

pub record JobStatusCounts : Type 0 where
  pub running : Number
  pub pending : Number
  pub stopping : Number
  pub terminating : Number
  pub suspended : Number
  pub resumed : Number

abbrev zero_number : Number
zero_number = int (pos 0)

-- `Number(o.k || 0)`
unfoldable pub count_at : String → Json → Number
unfolding to_number to_text
count_at k o = elim (get k o) [
  | none ↦ zero_number
  | some v ↦ if truthy v then number_of v else zero_number
]

-- the first of the properties that counts as true
unfoldable pub first_of : List String → Json → Option Json
first_of [] o = none
first_of (k ∷ ks) o =
    let rest = first_of ks o in
    elim (get k o) [ none ↦ rest | some v ↦ if truthy v then some v else rest ]

abbrev pub no_history : JobHistory Number
no_history = record {
  total = zero_number;
  success = zero_number;
  failed = zero_number;
  stopped = zero_number;
}

abbrev pub history_at : Option Json → JobHistory Number
history_at none = no_history
history_at (some h) = record {
  total = count_at "total" h;
  success = count_at "success" h;
  failed = count_at "failed" h;
  stopped = count_at "stopped" h;
}

-- `jobHistory24h` of `fetchDashboardOverview`; a value that is no object has none of the properties
unfoldable pub job_history : Json → JobHistory Number
unfolding first_of count_at
job_history body =
    history_at (
      first_of ("job_history_24h" ∷ "jobHistory_24h" ∷ "jobHistory24h" ∷ "job_history24h" ∷ [])
        body)

-- `jobStatusCounts` of `fetchDashboardOverview`
unfoldable pub job_status_counts : Json → JobStatusCounts
unfolding first_of count_at
job_status_counts body =
    let counts = or_default (first_of ("job_status_counts" ∷ "jobStatusCounts" ∷ []) body) null in
    record {
      running = count_at "running" counts;
      pending = count_at "pending" counts;
      stopping = count_at "stopping" counts;
      terminating = count_at "terminating" counts;
      suspended = count_at "suspended" counts;
      resumed = count_at "resumed" counts;
    }

-- a part of the legend, and an arc of the ring
pub record Segment : Type 0 where
  pub label : String
  pub color : String
  pub value : ℕ

-- a fraction of the circumference
pub record Part : Type 0 where
  pub parts : ℕ
  pub whole : ℕ

pub record Arc : Type 0 where
  pub segment : Segment
  pub offset : Part
  pub length : Part

-- `legend`, where the counts are natural numbers
abbrev pub legend : JobHistory ℕ → List Segment
legend h =
    record { label = "Success"; color = "#16a34a"; value = h.success }
    ∷ record { label = "Failed"; color = "#dc2626"; value = h.failed }
    ∷ record { label = "Stopped"; color = "#f59e0b"; value = h.stopped }
    ∷ []

-- `segments`
abbrev pub segments : JobHistory ℕ → List Segment
segments h = keep (λ (s : Segment). ltb 0 s.value) (legend h)

-- the sum of two fractions
abbrev pub add_part : Part → Part → Part
add_part p q =
    if p.whole == q.whole
    then record { parts = p.parts + q.parts; whole = p.whole }
    else record { parts = p.parts * q.whole + q.parts * p.whole; whole = p.whole * q.whole }

-- `total > 0 ? seg.value / total : 0`
abbrev pub frac : ℕ → ℕ → Part
frac total value =
    if ltb 0 total then record { parts = value; whole = total } else record { parts = 0; whole = 1 }

-- `segments.map(…)`, with the offset so far; a length and an offset are fractions of the circumference, by which the
-- code multiplies them, and exact.
unfoldable pub arcs_from : ℕ → Part → List Segment → List Arc
arcs_from total offset [] = []
arcs_from total offset (s ∷ ss) =
    let len = frac total s.value in
    record { segment = s; offset = offset; length = len } ∷ arcs_from total (add_part offset len) ss

-- `arcs`
unfoldable pub arcs : JobHistory ℕ → List Arc
unfolding arcs_from
arcs h = arcs_from h.total (record { parts = 0; whole = 1 }) (segments h)
