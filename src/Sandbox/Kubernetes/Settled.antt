-- ===== src/Sandbox/Kubernetes/Settled.antt =====
-- How `execute` ends, and what the worker records of it.
use mathlib.Core.Path.{subst}
use text.Mathlib.TextLemmas.{append_assoc, cons-append}
use py_faa_s.Prelude.Contains.{contains_text-append}
use py_faa_s.Prelude.{
  ℕ, ◌==◌, Bool-cases, inl, inr, String, str_append, str_eq, contains_text, ◌≡◌, refl, ap, ◌∙◌,
  Bool, true, false, none, some, [], arith,
}
use py_faa_s.Config.{Settings}
use py_faa_s.Models.{Error, api_exception, Result, ok, err, failed}
use py_faa_s.Worker.{truthy_text, failure_kind, new_status}
use py_faa_s.Sandbox.Results.{SandboxResult}
use py_faa_s.Sandbox.Manifest.{JobSpec, Python}
use py_faa_s.Sandbox.Cluster.{Cluster}
use py_faa_s.Sandbox.Kubernetes.{
  failed_with, execute, run_job, ensure_runtime_class, settled, delete_job, cleaned_up, job_name_of,
  Answer, elapsed_ms,
}
use py_faa_s.Sandbox.Kubernetes.Waiting.{execute-returns}

abbrev pub is_api : Error → Bool
is_api (api_exception _ _) = true
is_api _ = false

-- What leaves `execute`: a result that names its job, or an exception of another kind.
pub data Settles (job_name : String) : Result SandboxResult → Type 0 where
  named :
      (r : SandboxResult) (ms : ℕ)
      → r.k8s_job_name ≡ some job_name
      → r.duration_ms ≡ some ms
      → Settles job_name (ok r)
  other : (exc : Error) → is_api exc ≡ false → Settles job_name (err exc)

-- The text of an API error names its origin.
api_error_contains :
    (reason : String)
    → contains_text "Kubernetes API" (str_append "Kubernetes API error: " reason) ≡ true
api_error_contains reason =
    ap (contains_text "Kubernetes API") (append_assoc "Kubernetes API" " error: " reason)
    ∙ contains_text-append "K" "ubernetes API" (str_append " error: " reason)

some-inj : {A : Type 0} {a b : A} → some a ≡ some b → a ≡ b
some-inj h = cc

module _ (cluster : Cluster) (python : Python) (settings : Settings) where
  open cluster use {State, now}

  settled-Settles :
      (job_name : String) (start : ℕ) (r : Result SandboxResult) (s : State)
      → Settles job_name (settled cluster python settings job_name start r s)
  settled-Settles job_name start (ok r) s = named _ _ refl refl
  settled-Settles job_name start (err (api_exception status reason)) s = named _ _ refl refl
  settled-Settles job_name start (err exc) s = other exc refl

  -- How an answer came about: `finally` deletes the job in the state that the `try` left.
  abbrev pub Cleaned : String → Result SandboxResult × Bool × State → Type 0
  Cleaned job_name (r, checked, s) =
      Settles job_name r × ((s' : State) × (s ≡ (delete_job cluster python settings job_name s').1))

  cleaned_up-Cleaned :
      (job_name : String) (start : ℕ) (answer : Answer cluster python settings)
      (end : Result SandboxResult × Bool × State)
      → cleaned_up cluster python settings job_name start answer ≡ some end
      → Cleaned job_name end
  cleaned_up-Cleaned job_name start none end h = cc
  cleaned_up-Cleaned job_name start (some (r, checked, s)) end h =
      subst (Cleaned job_name) (some-inj h) (settled-Settles job_name start r s, (s, refl))

  -- `execute` always ends, by a result or an exception, and the deletion of its job is its last call on
  -- the cluster. A result names the job and its duration, and no `ApiException` leaves `execute`.
  pub execute-Settles :
      (checked : Bool) (suffix : String) (spec : JobSpec) (s : State)
      → (end : Result SandboxResult × Bool × State) × (execute cluster python settings checked
            suffix spec s
          ≡ some end)
        × Cleaned (job_name_of spec suffix) end
  unfolding execute
  execute-Settles checked suffix spec s =
      let (end, e) = execute-returns cluster python settings checked suffix spec s in
      (end, e, cleaned_up-Cleaned (job_name_of spec suffix) (now s) _ end e)

  -- The result of an error of the Kubernetes API.
  abbrev api_failure : String → ℕ → String → State → SandboxResult
  api_failure job_name start reason s =
      record (failed_with (str_append "Kubernetes API error: " reason) []) {
        k8s_job_name = some job_name;
        duration_ms = some (elapsed_ms cluster python settings start s);
      }

  api_failure-failure_kind :
      (job_name : String) (start : ℕ) (reason : String) (s : State)
      → failure_kind (api_failure job_name start reason s) ≡ some "infra"
  unfolding failure_kind
  api_failure-failure_kind job_name start reason s = ground (
    arith,
    api_error_contains reason,
    ap truthy_text (cons-append "K" "ubernetes API error: " reason),
  )

  abbrev class_required : String
  class_required = "SANDBOX_RUNTIME_CLASS is required"

  abbrev class_missing : String
  class_missing =
      str_append (str_append "RuntimeClass '" settings.sandbox_runtime_class)
        "' is not registered; install gVisor/runsc first"

  -- The runtime class is not set, or the cluster does not confirm that it is registered.
  pub data Unconfirmed (s : State) : State → Type 0 where
    unset : str_eq settings.sandbox_runtime_class "" ≡ true → Unconfirmed s s
    refused :
        {s' : State} (status : ℕ) (reason : String)
        → str_eq settings.sandbox_runtime_class "" ≡ false
        → cluster.read_runtime_class settings.sandbox_runtime_class s
          ≡ (err (api_exception status reason), s')
        → Unconfirmed s s'

  -- The sandbox fails closed: where the runtime class is not set, or the cluster answers the question
  -- for it by an `ApiException`, `execute` creates no job. It asks, deletes and does nothing else; the
  -- class stays unchecked, and the worker records the execution as failed by the infrastructure.
  pub execute-fails_closed :
      {s s' : State} (suffix : String) (spec : JobSpec)
      → Unconfirmed s s'
      → (r : SandboxResult) × (execute cluster python settings false suffix spec s
          ≡ some (ok r, false, (delete_job cluster python settings (job_name_of spec suffix) s').1))
        × (new_status r ≡ failed)
        × (failure_kind r ≡ some "infra")
  unfolding execute run_job ensure_runtime_class new_status
  execute-fails_closed {s} suffix spec (unset h) =
      let name = job_name_of spec suffix in
      (
        api_failure name (now s) class_required s,
        rw h refl,
        refl,
        api_failure-failure_kind name (now s) class_required s,
      )
  execute-fails_closed {s} {s'} suffix spec (refused status reason h e) =
      let name = job_name_of spec suffix in
      elim (Bool-cases (status == 404)) [
        | inl missing ↦ (
          api_failure name (now s) class_missing s',
          rw (h, e, missing) refl,
          refl,
          api_failure-failure_kind name (now s) class_missing s',
        )
        | inr elsewhere ↦ (
          api_failure name (now s) reason s',
          rw (h, e, elsewhere) refl,
          refl,
          api_failure-failure_kind name (now s) reason s',
        )
      ]
