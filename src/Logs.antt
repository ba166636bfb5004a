-- ===== src/Logs.antt =====
-- The export of LogsView.tsx as a text of comma-separated values, and types/log.ts.
pub mod Csv
pub mod Reader
pub mod Tests
pub mod View
use bv_orchestrator.Common.Separators.{lacks}
use bv_orchestrator.Common.{
  ◌==◌, nat_eq, string_eq, if◌then◌else◌, or_default, ◌+++◌, join, ℕ, code, String, Bool, not, ◌||◌,
  Option, List, [], ◌∷◌, map,
}

pub record LogEntry : Type 0 where
  pub timestamp : String
  pub level : String
  pub message : String
  pub process_id : Option ℕ
  pub process_name : Option String
  pub machine_id : Option ℕ
  pub machine_name : Option String
  pub host_identity : Option String

-- `value.replace(/"/g, '""')`
unfoldable pub doubled : String → String
doubled String.[] = String.[]
doubled (String.◌∷◌ c s) =
    let rest = doubled s in
    if code c == 34 then String.◌∷◌ c (String.◌∷◌ c rest) else String.◌∷◌ c rest

-- whether a value has a quote, a comma or the end of a line
abbrev pub needs_quotes : String → Bool
needs_quotes value = not (lacks 34 value) || not (lacks 44 value) || not (lacks 10 value)

-- `csvEscape`
unfoldable pub csv_escape : String → String
unfolding lacks doubled
csv_escape value = if needs_quotes value then "\"" +++ doubled value +++ "\"" else value

-- the columns of a row of `exportCsv`, a field that is missing as an empty text
abbrev pub columns : LogEntry → List String
columns r =
    r.timestamp
    ∷ r.level
    ∷ or_default r.process_name ""
    ∷ or_default r.machine_name ""
    ∷ or_default r.host_identity ""
    ∷ r.message
    ∷ []

abbrev pub header : List String
header = "timestamp" ∷ "level" ∷ "process" ∷ "machine" ∷ "hostIdentity" ∷ "message" ∷ []

-- the text that `exportCsv` saves
unfoldable pub export_csv : List LogEntry → String
unfolding join csv_escape
export_csv rows =
    join "\n" (join "," header ∷ map (λ r. join "," (map csv_escape (columns r))) rows)
