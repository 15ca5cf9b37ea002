-- ===== src/Sandbox/Runner/Main.antt =====
-- `main` of sandbox/runner.py.
use py_faa_s.Prelude.{
  ℕ, ◌-◌, ◌/◌, leb, ◌==◌, ◌||◌, not, String, str_append, str_eq, Bool, true, false, Option, none,
  some, List, [], ◌∷◌, if◌then◌else◌,
}
use py_faa_s.Models.{
  Json, bool, str, num, obj, no_fields, field, Error, value_error, text, Result, ok, err,
}
use py_faa_s.Session.{pure, raise, lift, ◌>>=◌, ◌>>◌, caught}
use py_faa_s.Sandbox.Manifest.{get_or}
use py_faa_s.Sandbox.Runner.Platform.{
  Environ, getenv, pop, Options, read_options, Kind, Platform, failure_value, timeout, ordinary,
  exits,
}
use py_faa_s.Sandbox.Runner.Code.{
  Step, print, print_error, emit, download_artifact, extract_archive, write_inline_source,
  install_requirements, load_handler,
}

module _ (platform : Platform) where
  open platform use {
    F, H, V, json, int, str_int, show, traceback, lower, seconds, kind, now, time_text, mkdir,
    mkdir_parent, rmtree, exists, write_text, sys_path_insert, fget_object, namelist, extract,
    pip_install, import_module, signature, call, is_dict, to_json,
  }

  -- `except Exception`
  abbrev pub caught_as : Kind → (Error → Step platform ℕ) → Error → Step platform ℕ
  caught_as timeout on_error exc = on_error exc
  caught_as ordinary on_error exc = on_error exc
  caught_as (exits n) on_error exc = raise exc

  -- `try: m except Exception as exc: on_error(exc) else: next`
  abbrev pub handled :
      {A : Type 0} → (Error → Step platform ℕ) → (A → Step platform ℕ) → Result A → Step platform ℕ
  handled on_error next (ok a) = next a
  handled on_error next (err exc) = caught_as (kind exc) on_error exc

  unfoldable pub attempt :
      {A : Type 0}
      → Step platform A
      → (Error → Step platform ℕ)
      → (A → Step platform ℕ)
      → Step platform ℕ
  attempt m on_error next = caught m >>= handled on_error next

  -- The report of a failure before the handler runs.
  unfoldable pub report : String → Json → Step platform ℕ
  unfolding print print_error
  report message v = print_error platform message >> emit platform v >> pure 1

  abbrev pub report_failure : String → Error → Step platform ℕ
  report_failure what exc =
      report (str_append (str_append (str_append "[sopm-runner] ERROR: " what) ": ") (show exc))
        (failure_value (str_append (str_append what ": ") (show exc)))

  abbrev pub report_install : Error → Step platform ℕ
  report_install exc =
      report (str_append "[sopm-runner] ERROR: dependency install failed: " (show exc)) (
        obj (
          field "error" (str (str_append "dependency install failed: " (show exc)))
            (field "success" (bool false) (field "phase" (str "dependency_install") no_fields))))

  abbrev pub wrapped : Bool → Json → Json
  wrapped true v = v
  wrapped false v = obj (field "return_value" v no_fields)

  abbrev pub success_value : Json → ℕ → Json
  success_value result ms = obj (
      field "success" (bool true)
        (field "result" result (field "duration_ms" (num (str_int ms)) no_fields)))

  -- The calling convention; `signature` may raise.
  abbrev pub arguments : Json → Json → ℕ × Bool → List Json
  arguments payload context (positional, has_varargs) =
      if has_varargs || leb 2 positional
      then payload ∷ context ∷ []
      else if positional == 1
      then payload ∷ []
      else []

  -- After the handler has returned: a value that JSON cannot express raises.
  unfoldable pub complete : ℕ → V → Step platform ℕ
  unfolding print
  complete start v w =
      let duration = now w - start in
      (print platform (str_append (str_append "[sopm-runner] completed in " (seconds duration)) "s")
          >> lift (to_json v)
          >>= λ result.
              emit platform (success_value (wrapped (is_dict v) result) (duration / 1000))
              >> pure 0)
        w

  unfoldable pub run_handler : H → Json → Json → Step platform ℕ
  unfolding complete
  run_handler handler payload context w =
      (lift (signature handler) >>= λ parameters.
      call handler (arguments payload context parameters) >>= complete (now w))
        w

  abbrev pub timeout_value : Error → Json
  timeout_value exc = obj (
      field "success" (bool false)
        (field "error" (str (show exc)) (field "timed_out" (bool true) no_fields)))

  abbrev pub error_value : Error → Json
  error_value exc = obj (
      field "success" (bool false)
        (field "error" (str (show exc)) (field "traceback" (str (traceback exc)) no_fields)))

  -- The two `except` clauses around the handler.
  unfoldable pub report_as : Kind → Error → Step platform ℕ
  unfolding report
  report_as timeout exc =
      report (str_append "[sopm-runner] TIMEOUT: " (show exc)) (timeout_value exc)
  report_as _ exc =
      report
        (str_append (str_append (str_append "[sopm-runner] ERROR: " (show exc)) "\n")
          (traceback exc))
        (error_value exc)

  abbrev pub report_handler : Error → Step platform ℕ
  report_handler exc = report_as (kind exc) exc

  -- A payload that is no JSON is an empty dictionary.
  abbrev pub payload_of : String → Json
  payload_of payload_raw = get_or (json.loads payload_raw) (obj no_fields)

  abbrev pub context_of : String → ℕ → Json
  context_of execution_id limit =
      obj
        (field "execution_id" (str execution_id) (field "timeout" (num (str_int limit)) no_fields))

  -- `main` from the parsing of the payload on.
  unfoldable pub execute_handler : String → String → String → ℕ → H → Step platform ℕ
  unfolding attempt run_handler report_as print
  execute_handler execution_id entrypoint payload_raw limit handler =
      print platform (str_append "[sopm-runner] executing " entrypoint)
      >> attempt (run_handler handler (payload_of payload_raw) (context_of execution_id limit))
          report_handler pure

  -- The removal of the secrets of the object store.
  abbrev pub without_secrets : Environ → Environ
  without_secrets environ =
      pop "MINIO_ENDPOINT" (pop "MINIO_SECRET_KEY" (pop "MINIO_ACCESS_KEY" environ))

  abbrev pub remove_secrets : Step platform (Unit {0})
  remove_secrets w = (ok tt, record w { environ = without_secrets w.environ })

  unfoldable pub user_part : Options → ℕ → Step platform ℕ
  unfolding attempt install_requirements load_handler execute_handler report pop
  user_part o limit =
      remove_secrets
      >> attempt (install_requirements platform o.work_dir o.deps_dir limit) report_install (λ _.
        attempt (load_handler platform o.work_dir o.entrypoint)
          (report_failure "handler load failed")
          (execute_handler o.execution_id o.entrypoint o.payload_raw limit))

  abbrev pub truthy : Option String → Bool
  truthy none = false
  truthy (some t) = not (str_eq t "")

  unfoldable pub extract_source : String → String → Step platform (Unit {0})
  unfolding extract_archive
  extract_source archive_path work_dir = extract_archive platform archive_path work_dir >> λ w.
      write_text (str_append work_dir "/.sopm-extracted") (time_text w) w

  -- The two `try` around the artifact; `next` is the rest of `main`.
  unfoldable pub fetch_source : String → String → Step platform ℕ → Step platform ℕ
  unfolding report print attempt download_artifact extract_source
  fetch_source work_dir artifact_path next =
      let archive_path = str_append work_dir "/source.zip" in
      (print platform (str_append "[sopm-runner] downloading artifact: " artifact_path)
        >> attempt (download_artifact platform artifact_path archive_path)
            (report_failure "artifact download failed")
            (λ _.
              attempt (extract_source archive_path work_dir)
                (report_failure "archive extraction failed") (λ _. next)))

  unfoldable pub fetch : String → Option String → Step platform ℕ → Step platform ℕ
  unfolding report fetch_source
  fetch work_dir artifact_path next =
      if truthy artifact_path
      then fetch_source work_dir (get_or artifact_path "") next
      else report "[sopm-runner] ERROR: SOPM_ARTIFACT_PATH is required without SOPM_SOURCE_CODE"
          (failure_value "SOPM_ARTIFACT_PATH is required without SOPM_SOURCE_CODE")

  -- The three ways to the code.
  unfoldable pub prepare :
      String → String → Option String → Option String → Step platform ℕ → Step platform ℕ
  unfolding fetch attempt write_inline_source print
  prepare work_dir entrypoint artifact_path (some source_code) next w =
      (print platform (str_append "[sopm-runner] using inline source for " entrypoint)
          >> attempt (write_inline_source platform work_dir entrypoint source_code)
              (report_failure "inline source write failed") (λ _. next))
        w
  prepare work_dir entrypoint artifact_path none next w =
      if exists (str_append work_dir "/.sopm-extracted") w
      then (print platform (str_append "[sopm-runner] using cached artifact: " work_dir) >> next) w
      else fetch work_dir artifact_path next w

  abbrev pub read_timeout : Option ℕ → Result ℕ
  read_timeout none = err (value_error (text "invalid literal for int()"))
  read_timeout (some n) = ok n

  unfoldable pub started : Options → ℕ → Step platform ℕ
  unfolding prepare user_part print
  started o limit =
      mkdir o.work_dir
      >> print platform (str_append "[sopm-runner] execution_id=" o.execution_id)
      >> prepare o.work_dir o.entrypoint o.artifact_path o.source_code (user_part o limit)

  unfoldable pub main : Step platform ℕ
  unfolding started read_options
  main w =
      (lift (read_timeout (int (get_or (getenv "SOPM_TIMEOUT" w.environ) "300")))
          >>= started (read_options w.environ))
        w
