-- ===== src/Logs/Tests.antt =====
-- The export of concrete logs (LogsView.tsx).
use bv_orchestrator.Logs.{LogEntry, csv_escape, columns, header, export_csv}
use bv_orchestrator.Logs.Reader.{read_csv}
use bv_orchestrator.Logs.View.{LogsView, forward, input, input_query, go_page, choose_limit}
use bv_orchestrator.Logs.Csv.{read_csv-export_csv}
use bv_orchestrator.Common.{nat_eq, string_eq, join, ◌≡◌, refl, true, none, some, [], ◌∷◌}

export : Unit {0}
unfolding csv_escape export_csv join
export = tt

abbrev entry : LogEntry
entry = record {
  timestamp = "t";
  level = "INFO";
  message = "a \"b\", c";
  process_id = some 1;
  process_name = none;
  machine_id = none;
  machine_name = some "m";
  host_identity = none;
}

export_test :
    export_csv (entry ∷ [])
    ≡ "timestamp,level,process,machine,hostIdentity,message\nt,INFO,,m,,\"a \"\"b\"\", c\""
unfolding export
export_test = refl

read_csv-export_csv_example :
    read_csv 6 3 (export_csv (entry ∷ entry ∷ []))
    ≡ some (header ∷ columns entry ∷ columns entry ∷ [])
read_csv-export_csv_example = read_csv-export_csv (entry ∷ entry ∷ [])

view : Unit {0}
unfolding input input_query go_page
view = tt

abbrev shown : LogsView
shown = record {
  query = record {
    level = "ALL";
    process_id = none;
    machine_id = none;
    host_identity = none;
    search = "";
    limit = 50;
    offset = 50;
    descending = true;
  };
  logs = [];
  total = 120;
  error = none;
  asked = [];
}

turned_test :
    ((go_page forward shown).query.offset ≡ 100)
    × ((go_page forward (go_page forward shown)).query.offset ≡ 100)
    × ((go_page forward shown).asked ≡ [])
    × ((input (choose_limit 25) shown).query.offset ≡ 0)
unfolding view
turned_test = (refl, refl, refl, refl)
