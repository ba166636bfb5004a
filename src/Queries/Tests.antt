-- ===== src/Queries/Tests.antt =====
-- Queries for logs and for the audit trail (api/logs.ts, api/audit.ts).
use bv_orchestrator.Common.Number.{int}
use bv_orchestrator.Common.Int.{pos}
use bv_orchestrator.Queries.{LogQuery, log_params, AuditQuery}
use bv_orchestrator.Common.{nat_eq, string_eq, ◌≡◌, refl, none, some, [], ◌∷◌}

abbrev all_levels : LogQuery
all_levels = record {
  from_time = "";
  to_time = "";
  level = "ALL";
  process_id = some (int (pos 4));
  machine_id = some (int (pos 0));
  host_identity = "";
  search_text = "disk";
  limit = none;
  offset = none;
  order = "desc";
}

log_test : log_params all_levels ≡ ("process_id", "4") ∷ ("search", "disk") ∷ ("order", "desc") ∷ []
unfolding log_params
log_test = refl

abbrev by_ann : AuditQuery
by_ann = record {
  from_time = "";
  to_time = "";
  action_type = "";
  user = "ann";
  search_text = "";
  entity_type = "";
  entity_id = "";
  from = "";
  to = "";
  user_id = some (int (pos 0));
  username = "";
  action = "";
  q = "";
  page = some (int (pos 2));
  page_size = none;
}
