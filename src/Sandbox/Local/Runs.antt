-- ===== src/Sandbox/Local/Runs.antt =====
-- The runner as a subprocess: what the worker records of a run that returns.
use py_faa_s.Prelude.{ℕ, String, ◌≡◌, refl, ap, ◌∙◌, none, some, reverse, true}
use py_faa_s.Prelude.Lines.{splitlines, IsLine}
use py_faa_s.Config.{Settings}
use py_faa_s.Models.{
  Json, obj, field, bool, num, no_fields, Error, Result, ok, err, completed, failed,
}
use py_faa_s.Worker.{new_status, failure_kind}
use py_faa_s.Sandbox.Results.{SandboxResult}
use py_faa_s.Sandbox.Logs.{or_next, find_result, parse_result_from_logs, format_logs}
use py_faa_s.Sandbox.Logs.RoundTrip.{format_logs-emit_result, parse_result_from_logs-emit}
use py_faa_s.Sandbox.Manifest.{Python}
use py_faa_s.Sandbox.Runner.Platform.{World, Platform}
use py_faa_s.Sandbox.Runner.Main.{main, success_value}
use py_faa_s.Sandbox.Runner.Exits.{Answers, Exits, completes, reports, escapes, main-Exits}
use py_faa_s.Sandbox.Local.{finished, local_result}

module _ (platform : Platform) (python : Python) (settings : Settings) (other_error : Json → String)
    (ms : ℕ) where
  open platform use {F, json, str_int}

  -- The worker's JSON is the runner's.
  abbrev recorded : ℕ → String → SandboxResult
  recorded code out =
      local_result (record python { json = json }) settings other_error ms (finished code out)

  -- What the worker makes of a run that returned, from its exit code and its output.
  pub data Recorded : Result ℕ × World F → Type 0 where
    success :
        (before : String) (result : Json) (d : ℕ) (w : World F)
        → Answers platform before result
        → new_status (recorded 0 w.out) ≡ completed
        → failure_kind (recorded 0 w.out) ≡ none
        → (recorded 0 w.out).error ≡ none
        → (recorded 0 w.out).logs ≡ format_logs before
        → (recorded 0 w.out).result
          ≡ or_next json
              (json.loads (
                json.dumps (
                  obj (
                    field "success"
                      (bool true)
                      (field "result" result (field "duration_ms" (num (str_int d)) no_fields))))))
              (find_result json (reverse (splitlines before)))
        → Recorded (ok 0, w)
    failure :
        (error : String) (w : World F)
        → new_status (recorded 1 w.out) ≡ failed
        → (recorded 1 w.out).error ≡ some error
        → Recorded (ok 1, w)
    escaped : (exc : Error) (w : World F) → Recorded (err exc, w)

  Exits-Recorded :
      ((v : Json) → IsLine (json.dumps v))
      → (r : Result ℕ × World F) → Exits platform r
      → Recorded r
  unfolding local_result new_status failure_kind
  Exits-Recorded lines r (completes before result d w whole answers out pending) =
      success before result d w answers refl refl refl
        (ap format_logs out
          ∙ format_logs-emit_result json before (success_value platform result d) (lines _) whole)
        (ap (parse_result_from_logs json) out
          ∙ parse_result_from_logs-emit json before (success_value platform result d) (lines _)
              whole)
  Exits-Recorded lines r (reports before value w not_ok out pending) = failure _ w refl refl
  Exits-Recorded lines r (escapes exc w) = escaped exc w

  -- Where `json.dumps` makes one line of every value, the worker records a run that ends with code 0 as
  -- completed, with no error, with the lines that the process printed up to the handler's return, and a
  -- message, as logs, and with what `json.loads` makes of the line that reports what the handler's call
  -- returned; a run that ends with code 1 it records as failed, with an error.
  pub main-Recorded :
      ((v : Json) → IsLine (json.dumps v)) → (w : World F) → Recorded (main platform w)
  main-Recorded lines w = Exits-Recorded lines (main platform w) (main-Exits platform w)
