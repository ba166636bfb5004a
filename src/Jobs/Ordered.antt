-- ===== src/Jobs/Ordered.antt =====
-- The jobs in the order of a heading (JobsPage.tsx).
use bv_orchestrator.Jobs.{Job}
use bv_orchestrator.Jobs.Order.{SortKey, SortValue, number, words, sort_value}
use bv_orchestrator.Common.{nat_eq, string_eq, ◌≡◌, Bool, true, false, none}

-- a value that is not NaN
abbrev pub is_valid : SortValue → Bool
is_valid (number none) = false
is_valid _ = true

-- two values of one heading
abbrev alike : SortValue → SortValue → Bool
alike (number m) (number n) = true
alike (words s) (words t) = true
alike _ _ = false

-- a job with a value under the heading; only a date may be missing
abbrev pub HasValue : SortKey → Job → Type 0
HasValue key j = is_valid (sort_value key j) ≡ true
