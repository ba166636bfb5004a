-- ===== src/Queries.antt =====
-- The query strings of api/logs.ts and api/audit.ts, as the parameters in the order in which they are
-- set; a text of a filter that is missing is "", and a number that is missing is `none`.
pub mod Keys
pub mod Tests
use bv_orchestrator.Common.Number.{Number, is_truthy, show_number}
use bv_orchestrator.Common.{
  ◌==◌, nat_eq, string_eq, if◌then◌else◌, is_empty, String, Option, none, some, List, [], ◌∷◌,
}

abbrev pub Params : Type 0
Params = List (String × String)

-- `if (v) qs.set(k, v)`
abbrev pub text_param : String → String → Params → Params
text_param k v ps = if is_empty v then ps else (k, v) ∷ ps

-- `if (n) qs.set(k, String(n))`
unfoldable pub number_param : String → Option Number → Params → Params
unfolding show_number
number_param k none ps = ps
number_param k (some n) ps = if is_truthy n then (k, show_number n) ∷ ps else ps

-- `if (n != null) qs.set(k, String(n))`
unfoldable pub given_param : String → Option Number → Params → Params
unfolding show_number
given_param k none ps = ps
given_param k (some n) ps = (k, show_number n) ∷ ps

pub record LogQuery : Type 0 where
  pub from_time : String
  pub to_time : String
  pub level : String
  pub process_id : Option Number
  pub machine_id : Option Number
  pub host_identity : String
  pub search_text : String
  pub limit : Option Number
  pub offset : Option Number
  pub order : String

-- `fetchLogs`
unfoldable pub log_params : LogQuery → Params
unfolding number_param
log_params q = text_param "from" q.from_time (
    text_param "to" q.to_time (
      text_param "level" (if q.level == "ALL" then "" else q.level) (
        number_param "process_id" q.process_id (
          number_param "machine_id" q.machine_id (
            text_param "host_identity" q.host_identity (
              text_param "search" q.search_text (
                number_param "limit" q.limit
                  (number_param "offset" q.offset (text_param "order" q.order [])))))))))

pub record AuditQuery : Type 0 where
  pub from_time : String
  pub to_time : String
  pub action_type : String
  pub user : String
  pub search_text : String
  pub entity_type : String
  pub entity_id : String
  pub from : String
  pub to : String
  pub user_id : Option Number
  pub username : String
  pub action : String
  pub q : String
  pub page : Option Number
  pub page_size : Option Number

-- `fetchAudit`
unfoldable pub audit_params : AuditQuery → Params
unfolding number_param given_param
audit_params p = text_param "from_time" p.from_time (
    text_param "to_time" p.to_time (
      text_param "action_type" p.action_type (
        text_param "user" p.user (
          text_param "search" p.search_text (
            text_param "entity_type" p.entity_type (
              text_param "entity_id" p.entity_id (
                text_param "from" p.from (
                  text_param "to" p.to (
                    given_param "user_id" p.user_id (
                      text_param "username" p.username (
                        text_param "action" p.action (
                          text_param "q" p.q (
                            number_param "page" p.page
                              (number_param "page_size" p.page_size []))))))))))))))
