-- ===== src/Sandbox/Logs.antt =====
-- How the sandbox reads a runner's output: `_parse_result_from_logs` and `_format_logs` of
-- sandbox/k8s_sandbox.py, and the runner's `_emit_result` (sandbox/runner.py) that writes it.
pub mod RoundTrip
mod Tests
use text.Mathlib.TextPositions.{starts_with-append}
use py_faa_s.Prelude.{
  ℕ, String, str_append, starts_with, ◌≡◌, Bool, Option, none, some, List, [], ◌∷◌, reverse,
  if◌then◌else◌,
}
use py_faa_s.Prelude.Lines.{splitlines, text_drop, feed}
use py_faa_s.Models.{Json}
use py_faa_s.Sandbox.Results.{LogEntry}

-- `json.dumps` and `json.loads`; a text that does not parse gives nothing.
pub record JsonText : Type 0 where
  pub dumps : Json → String
  pub loads : String → Option Json

abbrev pub result_prefix : String
result_prefix = "SOPM_RESULT:"

abbrev pub is_result : String → Bool
is_result line = starts_with line result_prefix

module _ (json : JsonText) where
  -- `_emit_result`: what it prints.
  abbrev pub emit_result : Json → String
  emit_result v = str_append (str_append result_prefix (json.dumps v)) feed

  abbrev pub or_next : Option Json → Option Json → Option Json
  or_next (some v) next = some v
  or_next none next = next

  -- The loop over the lines, the last one first.
  unfoldable pub find_result : List String → Option Json
  find_result [] = none
  find_result (line ∷ lines) =
      let rest = find_result lines in
      if is_result line then or_next (json.loads (text_drop 12 line)) rest else rest

  unfoldable pub parse_result_from_logs : String → Option Json
  unfolding find_result
  parse_result_from_logs logs = find_result (reverse (splitlines logs))

abbrev pub log_entry : String → LogEntry
log_entry line = record { level = some "INFO"; stream = some "stdout"; message = some line }

unfoldable pub format_lines : List String → List LogEntry
format_lines [] = []
format_lines (line ∷ lines) =
    let rest = format_lines lines in if is_result line then rest else log_entry line ∷ rest

unfoldable pub format_logs : String → List LogEntry
unfolding format_lines
format_logs raw = format_lines (splitlines raw)
