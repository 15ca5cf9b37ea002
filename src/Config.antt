-- ===== src/Config.antt =====
-- shared/config.py: the settings that the modelled code reads, with their defaults.
use py_faa_s.Prelude.{ℕ, ◌*◌, String, Bool, true, false}

pub record Settings : Type 0 where
  pub access_token_expire_minutes : ℕ
  pub refresh_token_expire_days : ℕ
  pub queue_dlq_name : String
  pub worker_queue_poll_interval : ℕ
  pub worker_stale_timeout_grace : ℕ
  pub sandbox_enabled : Bool
  pub sandbox_namespace : String
  pub sandbox_runtime_class : String
  pub sandbox_image : String
  pub sandbox_image_pull_policy : String
  pub sandbox_default_timeout : ℕ
  pub sandbox_cpu_request : String
  pub sandbox_cpu_limit : String
  pub sandbox_memory_request : String
  pub sandbox_memory_limit : String
  pub sandbox_service_account : String
  pub ephemeral_local_execution_enabled : Bool
  pub ephemeral_rate_limit_per_minute : ℕ
  pub ephemeral_concurrency_limit : ℕ
  pub ephemeral_max_code_bytes : ℕ
  pub scheduler_poll_interval : ℕ
  pub scheduler_max_missed_runs : ℕ
  pub max_function_size_bytes : ℕ
  pub max_payload_size_bytes : ℕ
  pub max_functions_per_user : ℕ
  pub max_versions_per_function : ℕ

abbrev pub default_settings : Settings
default_settings = record {
  access_token_expire_minutes = 60;
  refresh_token_expire_days = 7;
  queue_dlq_name = "sopm:dlq";
  worker_queue_poll_interval = 1;
  worker_stale_timeout_grace = 60;
  sandbox_enabled = true;
  sandbox_namespace = "sopm-sandbox";
  sandbox_runtime_class = "gvisor";
  sandbox_image = "sopm/runner:latest";
  sandbox_image_pull_policy = "IfNotPresent";
  sandbox_default_timeout = 300;
  sandbox_cpu_request = "100m";
  sandbox_cpu_limit = "500m";
  sandbox_memory_request = "128Mi";
  sandbox_memory_limit = "512Mi";
  sandbox_service_account = "sopm-runner";
  ephemeral_local_execution_enabled = false;
  ephemeral_rate_limit_per_minute = 20;
  ephemeral_concurrency_limit = 3;
  ephemeral_max_code_bytes = 64 * 1024;
  scheduler_poll_interval = 30;
  scheduler_max_missed_runs = 3;
  max_function_size_bytes = 10 * 1024 * 1024;
  max_payload_size_bytes = 1024 * 1024;
  max_functions_per_user = 100;
  max_versions_per_function = 50;
}
