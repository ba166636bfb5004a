-- ===== src/Jobs/Fresh.antt =====
-- The filters of the jobs' page and what is asked of the server (JobsPage.tsx).
use bv_orchestrator.Jobs.{JobStatus}
use bv_orchestrator.Jobs.Requests.{
  JobsPage, JobQuery, query_of, load, search_submit, reset_filters, choose_status, choose_process,
}
use bv_orchestrator.Common.{
  nat_eq, string_eq, if◌then◌else◌, is_some, ℕ, ◌≡◌, refl, ap, ◌↔◌, Bool, true, false, not, ◌&&◌,
  Option, none, some,
}

-- One input of the filters.
pub data FilterInput : Type 0 where
  searched reset : FilterInput
  status_chosen : Option JobStatus → FilterInput
  process_chosen : Option ℕ → FilterInput

abbrev pub input : FilterInput → JobsPage → JobsPage × Option JobQuery
input searched v = search_submit v
input reset v = reset_filters v
input (status_chosen s) v = choose_status s v
input (process_chosen p) v = choose_process p v

-- What is asked for is what the filters of the page now stand for.
abbrev pub IsFresh : JobsPage × Option JobQuery → Type 0
IsFresh (v, asked) = asked ≡ some (query_of v)

-- The inputs after which the page asks for the jobs of its filters.
abbrev pub agrees : FilterInput → JobsPage → Bool
agrees searched v = true
agrees reset v = not (is_some v.status) && not (is_some v.process_id)
agrees (status_chosen s) v = false
agrees (process_chosen none) v = not (is_some v.process_id)
agrees (process_chosen (some p)) v = true

abbrev asking : Option JobStatus → Option ℕ → Option JobQuery
asking s p = some (record { status = s; process_id = p })

asked_none_iff :
    (s : Option JobStatus) (p : Option ℕ)
    → (asking s p ≡ asking none none) ↔ (not (is_some s) && not (is_some p) ≡ true)
asked_none_iff none none = (λ h. refl, λ h. refl)
asked_none_iff (some s) p = (λ h. cc, λ h. cc)
asked_none_iff none (some p) = (λ h. cc, λ h. cc)

asked_all_iff :
    (s : Option JobStatus) (p : Option ℕ) → (asking s p ≡ asking s none) ↔ (not (is_some p) ≡ true)
asked_all_iff s none = (λ h. refl, λ h. refl)
asked_all_iff s (some p) = (λ h. cc, λ h. cc)

load_own : (o : Option ℕ) (v : JobsPage) → v.process_id ≡ o → load v.process_id v ≡ query_of v
unfolding load
load_own none v e = rw (e) refl
load_own (some id) v e = rw (e) refl

IsFresh-iff : (i : FilterInput) (v : JobsPage) → (IsFresh (input i v)) ↔ (agrees i v ≡ true)
unfolding search_submit reset_filters choose_status choose_process load
IsFresh-iff searched v = (λ h. refl, λ h. ap some (load_own v.process_id v refl))
IsFresh-iff reset v = asked_none_iff v.status v.process_id
IsFresh-iff (status_chosen s) v = (λ h. cc, λ h. cc)
IsFresh-iff (process_chosen none) v = asked_all_iff v.status v.process_id
IsFresh-iff (process_chosen (some p)) v = (λ h. refl, λ h. refl)

-- What is asked for where that is not what the page shows: a choice of a state asks for nothing, and any other
-- input asks for the filters that were there before.
abbrev pub stale : FilterInput → JobsPage → Option JobQuery
stale (status_chosen s) v = none
stale _ v = some (query_of v)

reset_asked :
    (s : Option JobStatus) (p : Option ℕ)
    → asking s p ≡ (if not (is_some s) && not (is_some p) then asking none none else asking s p)
reset_asked none none = refl
reset_asked (some s) p = refl
reset_asked none (some p) = refl

all_asked :
    (s : Option JobStatus) (p : Option ℕ)
    → asking s p ≡ (if not (is_some p) then asking s none else asking s p)
all_asked s none = refl
all_asked s (some p) = refl

asked_lem :
    (i : FilterInput) (v : JobsPage)
    → (input i v).1 ≡ (if agrees i v then some (query_of (input i v).0) else stale i v)
unfolding search_submit reset_filters choose_status choose_process load
asked_lem searched v = ap some (load_own v.process_id v refl)
asked_lem reset v = reset_asked v.status v.process_id
asked_lem (status_chosen s) v = refl
asked_lem (process_chosen none) v = all_asked v.status v.process_id
asked_lem (process_chosen (some p)) v = refl

-- After an input, the request is for the filters that the page then shows exactly after a search, after the
-- choice of a process, and after a reset or a choice of all processes that had nothing to take back; the
-- choice of a state sends no request, and the other resets and choices of all processes ask for the old filters.
pub input-IsFresh :
    (i : FilterInput) (v : JobsPage)
    → ((IsFresh (input i v)) ↔ (agrees i v ≡ true))
      × ((input i v).1 ≡ (if agrees i v then some (query_of (input i v).0) else stale i v))
input-IsFresh i v = (IsFresh-iff i v, asked_lem i v)
