-- ===== src/Sandbox/Manifest.antt =====
-- The Kubernetes Job that runs an execution: `_memory_limit`, `_memory_request` and the objects that
-- `_create_job` builds (sandbox/k8s_sandbox.py). A job without a key of its dictionary has `none`.
-- `str` and `int` on numbers, and `str` on JSON values, are Python's and are parameters.
pub mod Memory
use py_faa_s.Prelude.{
  ℕ, zero, suc, ◌==◌, leb, String, str_append, str_eq, Bool, true, false, Option, none, some, List,
  [], ◌∷◌, ◌++◌, if◌then◌else◌,
}
use py_faa_s.Prelude.Lines.{text_take}
use py_faa_s.Config.{Settings}
use py_faa_s.Models.{Json, Fields, no_fields, field, obj}
use py_faa_s.Sandbox.Logs.{JsonText}

pub record JobSpec : Type 0 where
  pub execution_id : String
  pub function_id : String
  pub version_id : Option String
  pub artifact_path : Option String
  pub entrypoint : String
  pub payload : Option Json
  pub timeout : Option ℕ
  pub environment : Option Fields
  pub memory_mb : Option ℕ
  pub source_code : Option String

-- `job_spec.get(key, default)`
abbrev pub get_or {ℓ} : {A : Type ℓ} → Option A → A → A
get_or none default = default
get_or (some v) default = v

-- `text.removesuffix("Mi")`
unfoldable pub remove_mi : String → String
remove_mi String.[] = String.[]
remove_mi (String.◌∷◌ c s) =
    let rest = remove_mi s in if str_eq (String.◌∷◌ c s) "Mi" then String.[] else String.◌∷◌ c rest

pub record Python : Type 0 where
  pub str_int : ℕ → String
  pub int : String → Option ℕ
  pub str_json : Json → String
  pub json : JsonText

pub data EnvVar : Type 0 where
  value : String → String → EnvVar
  secret : String → String → String → EnvVar

pub record SecurityContext : Type 0 where
  pub run_as_non_root : Bool
  pub run_as_user : ℕ
  pub run_as_group : ℕ
  pub privileged : Bool
  pub read_only_root_filesystem : Bool
  pub allow_privilege_escalation : Bool
  pub drop_capabilities : List String
  pub seccomp_profile : String

pub record PodSecurityContext : Type 0 where
  pub run_as_non_root : Bool
  pub run_as_user : ℕ
  pub run_as_group : ℕ
  pub fs_group : ℕ
  pub fs_group_change_policy : String
  pub seccomp_profile : String

pub record Resources : Type 0 where
  pub request_cpu : String
  pub request_memory : String
  pub limit_cpu : String
  pub limit_memory : String

pub record Container : Type 0 where
  pub name : String
  pub image : String
  pub image_pull_policy : String
  pub env : List EnvVar
  pub resources : Resources
  pub security_context : SecurityContext
  pub volume_mounts : List (String × String)

pub record PodSpec : Type 0 where
  pub runtime_class_name : String
  pub service_account_name : String
  pub restart_policy : String
  pub containers : List Container
  pub security_context : PodSecurityContext
  pub automount_service_account_token : Bool
  pub volumes : List (String × String)

pub record Job : Type 0 where
  pub name : String
  pub namespace : String
  pub labels : List (String × String)
  pub annotations : List (String × String)
  pub backoff_limit : ℕ
  pub active_deadline_seconds : ℕ
  pub ttl_seconds_after_finished : ℕ
  pub pod_labels : List (String × String)
  pub pod_spec : PodSpec

abbrev pub security_context : SecurityContext
security_context = record {
  run_as_non_root = true;
  run_as_user = 65534;
  run_as_group = 65534;
  privileged = false;
  read_only_root_filesystem = true;
  allow_privilege_escalation = false;
  drop_capabilities = "ALL" ∷ [];
  seccomp_profile = "RuntimeDefault";
}

abbrev pub pod_security_context : PodSecurityContext
pod_security_context = record {
  run_as_non_root = true;
  run_as_user = 65534;
  run_as_group = 65534;
  fs_group = 65534;
  fs_group_change_policy = "OnRootMismatch";
  seccomp_profile = "RuntimeDefault";
}

module _ (python : Python) (settings : Settings) where
  -- `int(job_spec.get("memory_mb") or 0)` is 0 for a missing size.
  unfoldable pub memory_limit : Option ℕ → String
  memory_limit none = settings.sandbox_memory_limit
  memory_limit (some zero) = settings.sandbox_memory_limit
  memory_limit (some (suc n)) = str_append (python.str_int (suc n)) "Mi"

  -- `min(limit_mib, 128)`
  abbrev pub request_mib : ℕ → ℕ
  request_mib limit_mib = if leb limit_mib 128 then limit_mib else 128

  -- `none` is a limit in another unit, which `int` does not read.
  abbrev pub request_for : Option ℕ → String
  request_for none = settings.sandbox_memory_request
  request_for (some limit_mib) = str_append (python.str_int (request_mib limit_mib)) "Mi"

  unfoldable pub memory_request : String → String
  memory_request limit = request_for (python.int (remove_mi limit))

  unfoldable pub user_env : Fields → List EnvVar
  user_env no_fields = []
  user_env (field k v rest) = value k (python.str_json v) ∷ user_env rest

  abbrev pub source_env : Option String → List EnvVar
  source_env none = []
  source_env (some code) = value "SOPM_SOURCE_CODE" code ∷ []

  -- `env_vars`: the platform's variables, the inline source, then the user's.
  unfoldable pub env_vars : JobSpec → List EnvVar
  unfolding user_env
  env_vars spec =
      (value "SOPM_EXECUTION_ID" spec.execution_id
        ∷ value "SOPM_ARTIFACT_PATH" (get_or spec.artifact_path "")
        ∷ value "SOPM_ENTRYPOINT" spec.entrypoint
        ∷ value "SOPM_PAYLOAD" (python.json.dumps (get_or spec.payload (obj no_fields)))
        ∷ value "SOPM_TIMEOUT" (python.str_int (get_or spec.timeout 300))
        ∷ value "HOME" "/tmp"
        ∷ value "PIP_CACHE_DIR" "/tmp/pip-cache"
        ∷ value "PYTHONPYCACHEPREFIX" "/tmp/pycache"
        ∷ secret "MINIO_ENDPOINT" "sopm-secrets" "minio-endpoint"
        ∷ secret "MINIO_ACCESS_KEY" "sopm-secrets" "minio-access-key"
        ∷ secret "MINIO_SECRET_KEY" "sopm-secrets" "minio-secret-key"
        ∷ [])
      ++ source_env spec.source_code
      ++ user_env (get_or spec.environment no_fields)

  unfoldable pub runner_container : JobSpec → Container
  unfolding env_vars memory_limit memory_request
  runner_container spec = record {
    name = "runner";
    image = settings.sandbox_image;
    image_pull_policy = settings.sandbox_image_pull_policy;
    env = env_vars spec;
    resources = record {
      request_cpu = settings.sandbox_cpu_request;
      request_memory = memory_request (memory_limit spec.memory_mb);
      limit_cpu = settings.sandbox_cpu_limit;
      limit_memory = memory_limit spec.memory_mb;
    };
    security_context = security_context;
    volume_mounts = ("tmp", "/tmp") ∷ ("work", "/work") ∷ [];
  }

  unfoldable pub pod_spec : JobSpec → PodSpec
  unfolding runner_container
  pod_spec spec = record {
    runtime_class_name = settings.sandbox_runtime_class;
    service_account_name = settings.sandbox_service_account;
    restart_policy = "Never";
    containers = runner_container spec ∷ [];
    security_context = pod_security_context;
    automount_service_account_token = false;
    volumes = ("tmp", "100Mi") ∷ ("work", "500Mi") ∷ [];
  }

  -- `job` of `_create_job`.
  unfoldable pub job_manifest : String → JobSpec → Job
  unfolding pod_spec
  job_manifest job_name spec = record {
    name = job_name;
    namespace = settings.sandbox_namespace;
    labels =
        ("app.kubernetes.io/component", "sandbox")
        ∷ ("sopm/network-profile", "artifact-only")
        ∷ ("sopm/execution-id", text_take 63 spec.execution_id)
        ∷ ("sopm/function-id", text_take 63 spec.function_id)
        ∷ [];
    annotations =
        ("sopm/execution-id", spec.execution_id) ∷ ("sopm/function-id", spec.function_id) ∷ [];
    backoff_limit = 0;
    active_deadline_seconds = get_or spec.timeout settings.sandbox_default_timeout;
    ttl_seconds_after_finished = 300;
    pod_labels =
        ("app.kubernetes.io/component", "sandbox")
        ∷ ("sopm/network-profile", "artifact-only")
        ∷ ("sopm/execution-id", text_take 63 spec.execution_id)
        ∷ [];
    pod_spec = pod_spec spec;
  }
