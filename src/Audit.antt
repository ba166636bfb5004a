-- ===== src/Audit.antt =====
-- AuditPage.tsx with types/audit.ts: the filters, the pages, and the requests that are under way. A handler
-- reads the state of the render that it belongs to, and the effect on the page runs after it.
pub mod Settled
pub mod Tests
use bv_orchestrator.Queries.{AuditQuery}
use bv_orchestrator.Trigger.{whole}
use bv_orchestrator.Common.{
  leb, ◌==◌, nat_eq, string_eq, if◌then◌else◌, or_default, is_some, ◌+++◌, is_empty, or_text, trim,
  ℕ, zero, suc, ◌+◌, ◌-◌, ◌/◌, String, Bool, true, false, ◌&&◌, ◌||◌, Option, none, some, List, [],
  ◌∷◌, ◌++◌,
}

pub record AuditItem : Type 0 where
  pub id : ℕ
  pub timestamp : String
  pub actor_username : Option String
  pub action : String
  pub action_type : Option String
  pub entity_type : Option String
  pub entity_display : Option String
  pub entity_id : Option String
  pub entity_name : Option String
  pub message : Option String
  pub summary : Option String

pub record Filters : Type 0 where
  pub search : String
  pub from_time : String
  pub to_time : String
  pub action_type : String
  pub user : String
  pub entity_type : String

abbrev pub no_filters : Filters
no_filters = record {
  search = "";
  from_time = "";
  to_time = "";
  action_type = "";
  user = "";
  entity_type = "";
}

-- what a request was made with
pub record AuditLoad : Type 0 where
  pub filters : Filters
  pub page : ℕ
  pub page_size : ℕ

-- the argument of `fetchAudit`
abbrev pub query_of : AuditLoad → AuditQuery
query_of l = record {
  from_time = l.filters.from_time;
  to_time = l.filters.to_time;
  action_type = l.filters.action_type;
  user = l.filters.user;
  search_text = trim l.filters.search;
  entity_type = l.filters.entity_type;
  entity_id = "";
  from = "";
  to = "";
  user_id = none;
  username = "";
  action = "";
  q = "";
  page = some (whole l.page);
  page_size = some (whole l.page_size);
}

-- The state of the page, with the requests under way, the oldest first.
pub record AuditPage : Type 0 where
  pub loading : Bool
  pub error : Option String
  pub items : List AuditItem
  pub total : ℕ
  pub page : ℕ
  pub page_size : ℕ
  pub filters : Filters
  pub pending : List AuditLoad

pub record AuditReply : Type 0 where
  pub items : List AuditItem
  pub total : ℕ
  pub page : ℕ
  pub page_size : ℕ

pub data AuditAnswer : Type 0 where
  came : AuditReply → AuditAnswer
  failed : (message : String) → AuditAnswer

abbrev pub load_of : AuditPage → AuditLoad
load_of v = record { filters = v.filters; page = v.page; page_size = v.page_size }

-- `load` up to its await, in the render `v`
abbrev pub ask : AuditLoad → AuditPage → AuditPage
ask l v = record v { loading = true; error = none; pending = v.pending ++ (l ∷ []) }

-- `useEffect(() => { load() }, [page, pageSize])`, between two renders
unfoldable pub effect : AuditPage → AuditPage → AuditPage
effect before v =
    if (before.page == v.page) && (before.page_size == v.page_size) then v else ask (load_of v) v

-- `Math.max(1, Math.ceil(total / pageSize))`
unfoldable pub pages : AuditPage → ℕ
pages v = let n = (v.total + v.page_size - 1) / v.page_size in if n == 0 then 1 else n

-- the button Apply
unfoldable pub apply : AuditPage → AuditPage
unfolding effect
apply v = effect v (record (ask (load_of v) v) { page = 1 })

-- the button Clear
unfoldable pub clear : AuditPage → AuditPage
unfolding effect
clear v = effect v (record (ask (load_of v) v) { page = 1; filters = no_filters })

-- the button with the arrow
abbrev pub refresh : AuditPage → AuditPage
refresh v = ask (load_of v) v

-- the buttons Prev and Next, which are shown when nothing is loading and there is no error
unfoldable pub prev : AuditPage → AuditPage
unfolding effect
prev v =
    if leb v.page 1 || v.loading || is_some v.error
    then v
    else effect v (record v { page = v.page - 1 })

unfoldable pub next : AuditPage → AuditPage
unfolding effect pages
next v =
    if leb (pages v) v.page || v.loading || is_some v.error
    then v
    else effect v (record v { page = v.page + 1 })

-- The rest of `load`, with the renders that its answer brings.
unfoldable pub answered : AuditAnswer → AuditPage → AuditPage
unfolding effect
answered (came r) v = effect v (record v {
  items = r.items;
  total = r.total;
  page = r.page;
  page_size = r.page_size;
  loading = false;
})
answered (failed e) v = record v { error = some (or_text e "Error"); loading = false }

abbrev pub answer_first : (AuditLoad → AuditAnswer) → List AuditLoad → AuditPage → AuditPage
answer_first serve [] v = v
answer_first serve (l ∷ ls) v = answered (serve l) (record v { pending = ls })

-- The oldest request is answered.
unfoldable pub answer_oldest : (AuditLoad → AuditAnswer) → AuditPage → AuditPage
unfolding answered
answer_oldest serve v = answer_first serve v.pending v

unfoldable pub answer_each : (AuditLoad → AuditAnswer) → ℕ → AuditPage → AuditPage
unfolding answer_oldest
answer_each serve zero v = v
answer_each serve (suc n) v = answer_each serve n (answer_oldest serve v)

-- the page when it is opened, with the request of its effect
abbrev pub opened : AuditPage
opened = record {
  loading = true;
  error = none;
  items = [];
  total = 0;
  page = 1;
  page_size = 50;
  filters = no_filters;
  pending = record { filters = no_filters; page = 1; page_size = 50 } ∷ [];
}

abbrev or_dash : String → String
or_dash s = if is_empty s then "—" else s

abbrev text_of : Option String → String
text_of o = or_default o ""

-- `[entityType, entityName || entityId].filter(Boolean).join(' / ')`
abbrev entity_path : String → String → String
entity_path kind what =
    if is_empty kind then what else if is_empty what then kind else kind +++ " / " +++ what

-- the column of the entity, and that of the details
abbrev pub entity_text : AuditItem → String
entity_text it = or_text (text_of it.entity_display) (
    or_dash (
      entity_path (text_of it.entity_type)
        (or_text (text_of it.entity_name) (text_of it.entity_id))))

abbrev pub details_text : AuditItem → String
details_text it = or_text (text_of it.message) (or_dash (text_of it.summary))
