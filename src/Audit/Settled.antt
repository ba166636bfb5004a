-- ===== src/Audit/Settled.antt =====
-- What the requests of the audit page come to, in the order in which they are made (AuditPage.tsx).
use bv_orchestrator.Audit.{
  AuditPage, AuditLoad, AuditReply, came, no_filters, load_of, ask, effect, pages, apply, clear,
  next, answered, answer_first, answer_oldest, answer_each,
}
use bv_orchestrator.Common.{
  ltb, leb, ◌==◌, nat_eq, string_eq, is_some, ℕ, zero, suc, ◌+◌, ◌≡◌, refl, sym, ap, ◌∙◌, ◌≢◌, Bool,
  true, false, ◌&&◌, ◌||◌, none, List, [], ◌∷◌, arith,
}

-- A request that the server serves as it is: other pages and sizes it takes to its own bounds.
abbrev pub is_served : AuditLoad → Bool
is_served l = leb 1 l.page && leb 1 l.page_size && leb l.page_size 500

-- The server names the page and the size that it was asked for.
abbrev pub Echoes : (AuditLoad → AuditReply) → Type 0
Echoes serve =
    (l : AuditLoad)
    → is_served l ≡ true
    → ((serve l).page ≡ l.page) × ((serve l).page_size ≡ l.page_size)

effect_other :
    (before v : AuditPage) → (before.page == v.page) ≡ false → effect before v ≡ ask (load_of v) v
unfolding effect
effect_other before v h = rw (h) refl

effect_same :
    (before v : AuditPage)
    → before.page ≡ v.page
    → before.page_size ≡ v.page_size
    → effect before v ≡ v
unfolding effect
effect_same before v h k =
    let same : (before.page == v.page) ≡ true = ground arith in
    let size : (before.page_size == v.page_size) ≡ true = ground arith in rw (same, size) refl

-- the page that an answer leaves, before the effect
abbrev shown : AuditReply → List AuditLoad → AuditPage → AuditPage
shown r ls v = record v {
  items = r.items;
  total = r.total;
  page = r.page;
  page_size = r.page_size;
  loading = false;
  pending = ls;
}

answer_oldest_lem :
    (serve : AuditLoad → AuditReply) (v : AuditPage) (l : AuditLoad) (ls : List AuditLoad)
    → v.pending ≡ l ∷ ls
    → answer_oldest (λ l. came (serve l)) v
      ≡ effect (record v { pending = ls }) (shown (serve l) ls v)
unfolding answer_oldest answered
answer_oldest_lem serve v l ls h = ap (λ ps. answer_first (λ l. came (serve l)) ps v) h

-- An answer that names the page and the size that are shown brings no request.
one_answer :
    (serve : AuditLoad → AuditReply) (v : AuditPage) (l : AuditLoad)
    → v.pending ≡ l ∷ []
    → v.page ≡ (serve l).page
    → v.page_size ≡ (serve l).page_size
    → answer_oldest (λ l. came (serve l)) v ≡ shown (serve l) [] v
one_answer serve v l h page size =
    answer_oldest_lem serve v l [] h
    ∙ effect_same (record v { pending = [] }) (shown (serve l) [] v) page size

-- Two requests that take turns: what is under way after some answers, the older first.
abbrev pub under_way : ℕ → AuditLoad → AuditLoad → List AuditLoad
under_way zero l k = l ∷ k ∷ []
under_way (suc n) l k = under_way n k l

-- the page that is shown meanwhile, which is that of the newer
abbrev pub page_between : ℕ → AuditLoad → AuditLoad → ℕ
page_between zero l k = k.page
page_between (suc n) l k = page_between n k l

module _ (serve : AuditLoad → AuditReply) (echoes : Echoes serve) where
  -- Two requests are under way: the older for another page than the one that is shown, the newer for it.
  flip :
      (v : AuditPage) (l k : AuditLoad)
      → v.pending ≡ l ∷ k ∷ []
      → v.page ≡ k.page
      → v.filters ≡ l.filters
      → l.page ≢ k.page
      → is_served l ≡ true
      → let w = answer_oldest (λ l. came (serve l)) v in
        (w.pending ≡ k ∷ l ∷ []) × (w.page ≡ l.page) × (w.filters ≡ v.filters)
  flip v l k h at same other served =
      let (page, size) = echoes l served in
      let moved =
        answer_oldest_lem serve v l (k ∷ []) h
        ∙ effect_other (record v { pending = k ∷ [] }) (shown (serve l) (k ∷ []) v)
            (ground arith) in
      rw (moved) (rw (page, size, same) refl, page, refl)

  forever :
      (n : ℕ) (v : AuditPage) (l k : AuditLoad)
      → v.pending ≡ l ∷ k ∷ []
      → v.page ≡ k.page
      → v.filters ≡ l.filters
      → v.filters ≡ k.filters
      → l.page ≢ k.page
      → is_served l ≡ true
      → is_served k ≡ true
      → let w = answer_each (λ l. came (serve l)) n v in
        (w.pending ≡ under_way n l k) × (w.page ≡ page_between n l k)
  unfolding answer_each
  forever zero v l k h at old new other served too = (h, at)
  forever (suc n) v l k h at old new other served too =
      let (pending, page, filters) = flip v l k h at old other served in
      forever n (answer_oldest (λ l. came (serve l)) v) k l pending page (filters ∙ new)
        (filters ∙ old) (λ e. other (sym e)) too served

  -- On a page other than the first, with nothing under way, Apply sends two requests, for the page that was shown
  -- and for the first, and goes to the first; when the answers come in the order of the requests, each turns the
  -- list to the other of the two pages and sends its own request again, behind the other one: after any number of
  -- answers both requests are still under way.
  pub apply_never_settles :
      (n : ℕ) (v : AuditPage)
      → v.pending ≡ []
      → v.page ≢ 1
      → is_served (load_of v) ≡ true
      → let w = answer_each (λ l. came (serve l)) n (apply v) in
        (w.pending ≡ under_way n (load_of v) (record (load_of v) { page = 1 }))
        × (w.page ≡ page_between n (load_of v) (record (load_of v) { page = 1 }))
  unfolding apply
  apply_never_settles n v quiet later served =
      let first : is_served (record (load_of v) { page = 1 }) ≡ true = ground arith in
      let twice = effect_other v (record (ask (load_of v) v) { page = 1 }) (ground arith) in
      let two : (ask (record (load_of v) { page = 1 })
            (record (ask (load_of v) v) { page = 1 })).pending
          ≡ load_of v ∷ record (load_of v) { page = 1 } ∷ [] =
        rw (quiet) refl in
      rw (twice) (
        forever n _ (load_of v) (record (load_of v) { page = 1 }) two refl refl refl later served
          first)

  -- With nothing under way and no error, Next shows, once its request is answered, the rows that the server
  -- has for the next page under the filters of the form, and nothing more is under way.
  pub next_shows :
      (v : AuditPage)
      → v.pending ≡ []
      → v.loading ≡ false
      → v.error ≡ none
      → ltb v.page (pages v) ≡ true
      → is_served (load_of v) ≡ true
      → let w = answer_oldest (λ l. came (serve l)) (next v) in
        (w.pending ≡ [])
        × (w.page ≡ v.page + 1)
        × (w.items ≡ (serve (record (load_of v) { page = v.page + 1 })).items)
  unfolding next
  next_shows v quiet idle fine more served =
      let l = record (load_of v) { page = v.page + 1 } in
      let far : is_served l ≡ true = ground arith in
      let (page, size) = echoes l far in
      let enabled : (leb (pages v) v.page || v.loading || is_some v.error) ≡ false =
        rw (idle, fine) (ground arith) in
      let turned = record v { page = v.page + 1 } in
      let moved = effect_other v turned (ground arith) in
      let done =
        ap (answer_oldest (λ l. came (serve l))) moved
        ∙ one_answer serve (ask l turned) l (rw (quiet) refl) (sym page) (sym size) in
      rw (enabled, done) (refl, page, refl)

  -- On the first page, with nothing under way, Clear empties the filters but asks with the old ones: once its
  -- request is answered, the rows are those of the old filters, the filters are empty, and nothing more is
  -- under way.
  clear_shows_old :
      (v : AuditPage)
      → v.pending ≡ []
      → v.page ≡ 1
      → is_served (load_of v) ≡ true
      → let w = answer_oldest (λ l. came (serve l)) (clear v) in
        (w.pending ≡ []) × (w.filters ≡ no_filters) × (w.items ≡ (serve (load_of v)).items)
  unfolding clear
  clear_shows_old v quiet first served =
      let (page, size) = echoes (load_of v) served in
      let cleared = record (ask (load_of v) v) { page = 1; filters = no_filters } in
      let done =
        ap (answer_oldest (λ l. came (serve l))) (effect_same v cleared first refl)
        ∙ one_answer serve cleared (load_of v) (rw (quiet) refl) (sym (page ∙ first)) (sym size) in
      rw (done) (refl, refl, refl)
