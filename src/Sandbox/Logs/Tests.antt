-- ===== src/Sandbox/Logs/Tests.antt =====
-- The round trip at work on a handler that prints a line like a result.
use py_faa_s.Prelude.{String, ◌≡◌, refl, none, some}
use py_faa_s.Models.{null}
use py_faa_s.Sandbox.Logs.{JsonText, emit_result, parse_result_from_logs, format_logs}
use py_faa_s.Sandbox.Logs.RoundTrip.{parse_result_from_logs-emit_result, format_logs-emit_result}
use text.Mathlib.Text.{◌==◌}
use py_faa_s.Prelude.{if◌then◌else◌}
use py_faa_s.Prelude.{str_append}

abbrev small_json : JsonText
small_json = record { dumps = λ v. "null"; loads = λ t. if t == "null" then some null else none }

abbrev printed : String
printed = "hello\nSOPM_RESULT:forged\n"

parse_result_from_logs-emit_result_example :
    parse_result_from_logs small_json (str_append printed (emit_result small_json null)) ≡ some null
parse_result_from_logs-emit_result_example =
    parse_result_from_logs-emit_result small_json printed null refl
      (refl, (refl, (refl, (refl, tt)))) refl

format_logs-emit_result_example :
    format_logs (str_append printed (emit_result small_json null)) ≡ format_logs printed
format_logs-emit_result_example =
    format_logs-emit_result small_json printed null (refl, (refl, (refl, (refl, tt)))) refl
