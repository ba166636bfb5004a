-- ===== src/Jobs/Paging.antt =====
-- The pages of the list of jobs (JobsPage.tsx).
use bv_orchestrator.Jobs.{Job, page_count, current_page, visible}
use native.Mathlib.Nat.{lt-div-mul-add, div-mul-le_self, mul-le-mul_right}
use bv_orchestrator.Common.{length-take, length-drop}
use bv_orchestrator.Common.{
  ltb, nat_eq, string_eq, if◌then◌else◌, length, take, drop, ℕ, zero, suc, ◌+◌, ◌-◌, ◌*◌, ◌/◌, ◌≤◌,
  ◌<◌, ◌≡◌, refl, sym, ap, ◌∙◌, List, [], ◌∷◌, ◌++◌, arith,
}

-- Pages from the first on, `count` of them.
abbrev pub pages : ℕ → List Job → ℕ → List Job
pages size jobs zero = []
pages size jobs (suc count) = pages size jobs count ++ visible size count jobs

take_nothing : (n : ℕ) → let none_left : List Job = [] in take n none_left ≡ none_left
take_nothing zero = refl
take_nothing (suc n) = refl

take-add :
    (k m n : ℕ) (jobs : List Job) → k ≡ m + n → take k jobs ≡ take m jobs ++ take n (drop m jobs)
take-add k zero n jobs h = let e : k ≡ n = omega (arith, h) in ap (λ i. take i jobs) e
take-add zero (suc m) n jobs h = absurd (omega (arith, h))
take-add (suc k) (suc m) n [] h = sym (take_nothing n)
take-add (suc k) (suc m) n (j ∷ jobs) h = ap (λ xs. j ∷ xs) (take-add k m n jobs (omega (arith, h)))

take_all : (n : ℕ) (jobs : List Job) → length jobs ≤ n → take n jobs ≡ jobs
take_all zero [] h = refl
take_all zero (j ∷ jobs) h = absurd (omega (arith, h))
take_all (suc n) [] h = refl
take_all (suc n) (j ∷ jobs) h = ap (λ xs. j ∷ xs) (take_all n jobs (omega (arith, h)))

at_least_one :
    (q s n : ℕ)
    → n ≤ q * s
    → (n ≤ (if ltb q 1 then 1 else q) * s) × (1 ≤ (if ltb q 1 then 1 else q))
at_least_one zero s n h = ground arith
at_least_one (suc q) s n h = ground arith

-- The page count leaves no job out.
page_count_lem : (size n : ℕ) → 1 ≤ size → (n ≤ page_count size n * size) × (1 ≤ page_count size n)
page_count_lem size n h =
    let q = (n + size - 1) / size in
    let l : n + size - 1 < q * size + size = lt-div-mul-add (omega (arith, h)) in
    at_least_one q size n (omega (arith, l, h))

current_lem : (size n page : ℕ) → page < page_count size n → current_page size n page ≡ page
unfolding current_page
current_lem size n page h = ground arith

nothing : (n : ℕ) → 0 ≡ 0 * n
nothing n = omega arith

pages_prefix :
    (size count : ℕ) (jobs : List Job)
    → count ≤ page_count size (length jobs)
    → pages size jobs count ≡ take (count * size) jobs
unfolding visible
pages_prefix size zero jobs h = ap (λ i. take i jobs) (nothing size)
pages_prefix size (suc count) jobs h =
    let here : visible size count jobs ≡ take size (drop (count * size) jobs) =
      ap (λ i. take size (drop (i * size) jobs))
        (current_lem size (length jobs) count (omega (arith, h))) in
    ap (λ xs. xs ++ visible size count jobs) (pages_prefix size count jobs (omega (arith, h)))
    ∙ ap (λ xs. take (count * size) jobs ++ xs) here
    ∙ sym (take-add (suc count * size) (count * size) size jobs (omega arith))

-- The pages of the list, one after the other, are the list: no job is left out, none is shown on two
-- pages, and the order is kept.
pages_lem :
    (size : ℕ) (jobs : List Job) → 1 ≤ size → pages size jobs (page_count size (length jobs)) ≡ jobs
pages_lem size jobs h =
    pages_prefix size (page_count size (length jobs)) jobs (omega arith)
    ∙ take_all (page_count size (length jobs) * size) jobs (page_count_lem size (length jobs) h).0

last_page :
    (q s n : ℕ) → q * s ≤ n + s - 1 → 1 ≤ n → 1 ≤ s → ((if ltb q 1 then 1 else q) - 1) * s < n
last_page zero s n h k l = ground arith
last_page (suc q) s n h k l = ground arith

current_le : (size n page : ℕ) → current_page size n page ≤ page_count size n - 1
unfolding current_page
current_le size n page = ground arith

-- The page begins before the end of the list.
pub start_lt : (size n page : ℕ) → 1 ≤ size → 1 ≤ n → current_page size n page * size < n
start_lt size n page h k =
    let q = (n + size - 1) / size in
    let last : (page_count size n - 1) * size < n =
      last_page q size n (div-mul-le_self (n + size - 1) size) k h in
    let before = mul-le-mul_right size (current_le size n page) in omega (arith, last, before)

-- Whatever page number the component holds, the page that is shown has a job if there is one, and never
-- more jobs than a page takes; its number is below the page count.
visible_lem :
    (size page : ℕ) (jobs : List Job)
    → 1 ≤ size
    → 1 ≤ length jobs
    → (1 ≤ length (visible size page jobs))
      × (length (visible size page jobs) ≤ size)
      × (current_page size (length jobs) page < page_count size (length jobs))
unfolding visible
visible_lem size page jobs h k =
    let start = current_page size (length jobs) page * size in
    let taken = length-take size (drop start jobs) in
    let left = length-drop start jobs in
    let begun = start_lt size (length jobs) page h k in
    let most = current_le size (length jobs) page in
    let some_page = (page_count_lem size (length jobs) h).1 in
    (omega (arith, taken, left, begun, h), omega (arith, taken), omega (arith, most, some_page))
