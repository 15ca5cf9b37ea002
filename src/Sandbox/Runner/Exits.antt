-- ===== src/Sandbox/Runner/Exits.antt =====
-- The exit code of the runner and the result that it emits say the same.
use text.Mathlib.TextLemmas.{append-nil}
use py_faa_s.Prelude.{
  if◌then◌else◌, ℕ, ◌-◌, ◌/◌, String, str_append, str_eq, ◌≡◌, refl, Bool, true, false, Option,
  none, some, List,
}
use py_faa_s.Prelude.Lines.{feed, ends_line, ends_line-feed}
use py_faa_s.Models.{Json, bool, num, Fields, no_fields, field, obj, Error, Result, ok, err}
use py_faa_s.Session.{◌>>=◌, ◌>>◌, lift, pure}
use py_faa_s.Sandbox.Logs.{emit_result}
use py_faa_s.Sandbox.Runner.Platform.{
  Options, read_options, World, Kind, Platform, failure_value, timeout, ordinary, exits,
}
use py_faa_s.Sandbox.Runner.Code.{
  Step, print, print_error, download_artifact, write_inline_source, install_requirements,
  load_handler,
}
use py_faa_s.Sandbox.Runner.Main.{
  caught_as, handled, attempt, report, report_failure, report_install, arguments, wrapped, complete,
  run_handler, report_as, report_handler, payload_of, context_of, execute_handler, remove_secrets,
  user_part, truthy, extract_source, fetch_source, fetch, prepare, read_timeout, started, main,
}

-- `value.get("success")` of a dictionary.
abbrev pub success_of : Json → Option Json
success_of (obj fields) = get "success" fields
  where
    get : String → Fields → Option Json
    get k no_fields = none
    get k (field j v rest) = if str_eq j k then some v else get k rest
success_of _ = none

module _ (platform : Platform) where
  open platform use {F, H, V, json, str_int, call, is_dict, to_json}

  -- What a handler has answered: the value that its call returned, as `json` has it and in a
  -- dictionary, after the output of the process so far and a last message.
  pub record Answers (before : String) (result : Json) : Type 0 where
    pub handler : H
    pub arguments : List Json
    pub called_in : World F
    pub value : V
    pub returned_in : World F
    pub encoded : Json
    pub message : String
    pub called : call handler arguments called_in ≡ (ok value, returned_in)
    pub is_encoded : to_json value ≡ ok encoded
    pub is_result :
        result ≡ (if is_dict value then encoded else obj (field "return_value" encoded no_fields))
    pub comes_after :
        before
        ≡ str_append (str_append returned_in.out returned_in.pending) (str_append message feed)

  -- How a run of the runner ends: with code 0 and the handler's result as the last line, with code 1
  -- and a result that reports a failure as the last output, or by an exception that passes it.
  pub data Exits : Result ℕ × World F → Type 0 where
    completes :
        (before : String) (result : Json) (ms : ℕ) (w : World F)
        → ends_line before ≡ true
        → Answers before result
        → w.out
          ≡ str_append before (
              emit_result json (
                obj (
                  field "success"
                    (bool true)
                    (field "result" result (field "duration_ms" (num (str_int ms)) no_fields)))))
        → w.pending ≡ ""
        → Exits (ok 0, w)
    reports :
        (before : String) (value : Json) (w : World F)
        → success_of value ≡ some (bool false)
        → w.out ≡ str_append before (emit_result json value)
        → w.pending ≡ ""
        → Exits (ok 1, w)
    escapes : (exc : Error) (w : World F) → Exits (err exc, w)

  bind-Exits :
      {A : Type 0} (m : Step platform A) (next : A → Step platform ℕ)
      → ((a : A) (w : World F) → Exits (next a w))
      → (w : World F) → Exits ((m >>= next) w)
  bind-Exits m next h w = cases (m w)
    where
      cases :
          (r : Result _ × World F) → Exits (elim r.0 [ ok a ↦ next a r.1 | err e ↦ (err e, r.1) ])
      cases (ok a, w') = h a w'
      cases (err e, w') = escapes e w'

  -- Any exception of the attempted part is reported or escapes.
  attempt-Exits :
      {A : Type 0} (m : Step platform A) (on_error : Error → Step platform ℕ)
      (next : A → Step platform ℕ)
      → ((exc : Error) (w : World F) → Exits (on_error exc w))
      → ((a : A) (w : World F) → Exits (next a w))
      → (w : World F) → Exits (attempt platform m on_error next w)
  unfolding attempt
  attempt-Exits {A} m on_error next he hn w = cases (m w)
    where
      caught_case :
          (exc : Error) (w' : World F) (k : Kind) → Exits (caught_as platform k on_error exc w')
      caught_case exc w' timeout = he exc w'
      caught_case exc w' ordinary = he exc w'
      caught_case exc w' (exits n) = escapes exc w'

      cases : (r : Result A × World F) → Exits (handled platform on_error next r.0 r.1)
      cases (ok a, w') = hn a w'
      cases (err exc, w') = caught_case exc w' (platform.kind exc)

  report-Exits :
      (message : String) (value : Json)
      → success_of value ≡ some (bool false)
      → (w : World F) → Exits (report platform message value w)
  unfolding report print print_error
  report-Exits message value h w = reports _ value _ h refl refl

  report_failure-Exits :
      (what : String) (exc : Error) (w : World F) → Exits (report_failure platform what exc w)
  report_failure-Exits what exc = report-Exits _ _ refl

  report_as-Exits : (k : Kind) (exc : Error) (w : World F) → Exits (report_as platform k exc w)
  unfolding report_as
  report_as-Exits timeout exc = report-Exits _ _ refl
  report_as-Exits ordinary exc = report-Exits _ _ refl
  report_as-Exits (exits n) exc = report-Exits _ _ refl

  wrapped_lem :
      (b : Bool) (j : Json)
      → wrapped platform b j ≡ (if b then j else obj (field "return_value" j no_fields))
  wrapped_lem true j = refl
  wrapped_lem false j = refl

  complete-Exits :
      (start : ℕ) (handler : H) (arguments : List Json) (w₀ : World F) (v : V) (w : World F)
      → call handler arguments w₀ ≡ (ok v, w)
      → Exits (complete platform start v w)
  unfolding complete print
  complete-Exits start handler arguments w₀ v w returned = found (platform.to_json v) refl
    where
      message : String
      message =
          str_append
            (str_append "[sopm-runner] completed in " (platform.seconds (platform.now w - start)))
            "s"

      before : String
      before = str_append (str_append w.out w.pending) (str_append message feed)

      whole : ends_line (str_append before "") ≡ true
      whole = rw (append-nil before) (ends_line-feed (str_append w.out w.pending) message)

      found : (r : Result Json) → platform.to_json v ≡ r → Exits (complete platform start v w)
      found (err exc) e = rw e (escapes exc _)
      found (ok j) e = rw e (
          completes (str_append before "") (wrapped platform (platform.is_dict v) j)
            ((platform.now w - start) / 1000) _ whole
            (record {
              handler = handler;
              arguments = arguments;
              called_in = w₀;
              value = v;
              returned_in = w;
              encoded = j;
              message = message;
              called = returned;
              is_encoded = e;
              is_result = wrapped_lem (platform.is_dict v) j;
              comes_after = append-nil before;
            })
            refl refl)

  called-Exits :
      (start : ℕ) (handler : H) (arguments : List Json) (w : World F)
      → Exits ((call handler arguments >>= complete platform start) w)
  called-Exits start handler arguments w = cases (call handler arguments w) refl
    where
      cases :
          (r : Result V × World F)
          → call handler arguments w ≡ r
          → Exits (elim r.0 [ ok v ↦ complete platform start v r.1 | err exc ↦ (err exc, r.1) ])
      cases (ok v, w') e = complete-Exits start handler arguments w v w' e
      cases (err exc, w') e = escapes exc w'

  run_handler-Exits :
      (handler : platform.H) (payload context : Json) (w : World F)
      → Exits (run_handler platform handler payload context w)
  unfolding run_handler
  run_handler-Exits handler payload context w =
      bind-Exits (lift (platform.signature handler)) _
        (λ parameters.
          called-Exits (platform.now w) handler (arguments platform payload context parameters))
        w

  -- The end of an attempted part that ends the run is kept.
  attempt-pure-Exits :
      (m : Step platform ℕ)
      → ((w : World F) → Exits (m w))
      → (w : World F) → Exits (attempt platform m (report_handler platform) pure w)
  unfolding attempt
  attempt-pure-Exits m h w = cases (m w) (h w)
    where
      cases :
          (r : Result ℕ × World F)
          → Exits r
          → Exits (handled platform (report_handler platform) pure r.0 r.1)
      cases (ok n, w') e = e
      cases (err exc, w') e = report_or_escape (platform.kind exc)
        where
          report_or_escape :
              (k : Kind) → Exits (caught_as platform k (report_handler platform) exc w')
          report_or_escape timeout = report_as-Exits (platform.kind exc) exc w'
          report_or_escape ordinary = report_as-Exits (platform.kind exc) exc w'
          report_or_escape (exits n) = escapes exc w'

  execute_handler-Exits :
      (execution_id entrypoint payload_raw : String) (limit : ℕ) (handler : platform.H)
      (w : World F)
      → Exits (execute_handler platform execution_id entrypoint payload_raw limit handler w)
  unfolding execute_handler
  execute_handler-Exits execution_id entrypoint payload_raw limit handler =
      bind-Exits (print platform (str_append "[sopm-runner] executing " entrypoint)) _ (λ _.
        attempt-pure-Exits
          (run_handler platform handler (payload_of platform payload_raw)
            (context_of platform execution_id limit))
          (run_handler-Exits handler (payload_of platform payload_raw)
            (context_of platform execution_id limit)))

  report_install-Exits : (exc : Error) (w : World F) → Exits (report_install platform exc w)
  report_install-Exits exc = report-Exits _ _ refl

  user_part-Exits : (o : Options) (limit : ℕ) (w : World F) → Exits (user_part platform o limit w)
  unfolding user_part
  user_part-Exits o limit = bind-Exits (remove_secrets platform) _ (λ _.
      attempt-Exits (install_requirements platform o.work_dir o.deps_dir limit) _ _
        report_install-Exits
        (λ _.
          attempt-Exits (load_handler platform o.work_dir o.entrypoint) _ _
            (report_failure-Exits "handler load failed")
            (execute_handler-Exits o.execution_id o.entrypoint o.payload_raw limit)))

  module _ (next : Step platform ℕ) (rest : (w : World F) → Exits (next w)) where
    fetch_source-Exits :
        (work_dir artifact_path : String) (w : World F)
        → Exits (fetch_source platform work_dir artifact_path next w)
    unfolding fetch_source
    fetch_source-Exits work_dir artifact_path =
        bind-Exits
          (print platform (str_append "[sopm-runner] downloading artifact: " artifact_path)) _
          (λ _.
            attempt-Exits
              (download_artifact platform artifact_path (str_append work_dir "/source.zip")) _ _
              (report_failure-Exits "artifact download failed")
              (λ _.
                attempt-Exits (extract_source platform (str_append work_dir "/source.zip") work_dir)
                  _ _ (report_failure-Exits "archive extraction failed") (λ _. rest)))

    fetch-Exits :
        (work_dir : String) (artifact_path : Option String) (w : World F)
        → Exits (fetch platform work_dir artifact_path next w)
    unfolding fetch
    fetch-Exits work_dir artifact_path w = found (truthy platform artifact_path) refl
      where
        found :
            (b : Bool)
            → truthy platform artifact_path ≡ b
            → Exits (fetch platform work_dir artifact_path next w)
        found true e = rw e (fetch_source-Exits work_dir _ w)
        found false e = rw e (
            report-Exits
              "[sopm-runner] ERROR: SOPM_ARTIFACT_PATH is required without SOPM_SOURCE_CODE"
              (failure_value "SOPM_ARTIFACT_PATH is required without SOPM_SOURCE_CODE") refl w)

    prepare-Exits :
        (work_dir entrypoint : String) (artifact_path source_code : Option String) (w : World F)
        → Exits (prepare platform work_dir entrypoint artifact_path source_code next w)
    unfolding prepare
    prepare-Exits work_dir entrypoint artifact_path (some source_code) w =
        bind-Exits (print platform (str_append "[sopm-runner] using inline source for " entrypoint))
          _
          (λ _.
            attempt-Exits (write_inline_source platform work_dir entrypoint source_code) _ _
              (report_failure-Exits "inline source write failed") (λ _. rest))
          w
    prepare-Exits work_dir entrypoint artifact_path none w =
        found (platform.exists (str_append work_dir "/.sopm-extracted") w) refl
      where
        found :
            (b : Bool)
            → platform.exists (str_append work_dir "/.sopm-extracted") w ≡ b
            → Exits (prepare platform work_dir entrypoint artifact_path none next w)
        found true e = rw e (
            bind-Exits
              (print platform (str_append "[sopm-runner] using cached artifact: " work_dir)) _
              (λ _. rest) w)
        found false e = rw e (fetch-Exits work_dir artifact_path w)

  started-Exits : (o : Options) (limit : ℕ) (w : World F) → Exits (started platform o limit w)
  unfolding started
  started-Exits o limit =
      bind-Exits
        (platform.mkdir o.work_dir
          >> print platform (str_append "[sopm-runner] execution_id=" o.execution_id))
        _
        (λ _.
          prepare-Exits (user_part platform o limit) (user_part-Exits o limit) o.work_dir
            o.entrypoint o.artifact_path o.source_code)

  -- When the runner returns, its exit code and the result that it printed last agree: code 0 comes with
  -- what a call of a handler returned, as `json` has it and in a dictionary, in a line of its own after
  -- whole lines: the output up to that return and a message. Code 1 comes with a result whose `success`
  -- is false. Any other end is an exception that leaves `main`.
  pub main-Exits : (w : World F) → Exits (main platform w)
  unfolding main
  main-Exits w =
      bind-Exits (lift (read_timeout platform _)) (started platform (read_options w.environ))
        (started-Exits (read_options w.environ)) w
