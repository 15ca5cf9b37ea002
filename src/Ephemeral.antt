-- ===== src/Ephemeral.antt =====
-- api/routers/ephemeral.py: raw code sent with an API key. Parameters are `str` on numbers and
-- exceptions, and the Redis calls: the counter of a key and a minute, its expiry, and the queue.
-- Waiting for the result, which only reads, is not modelled, and the authenticated principal is an
-- argument.
pub mod Limits
mod Tests
use py_faa_s.Prelude.{
  ℕ, ◌==◌, ◌&&◌, ltb, leb, not, String, str_append, str_eq, Bool, Option, none, some, opt_eq,
  count_where, if◌then◌else◌,
}
use py_faa_s.Config.{Settings}
use py_faa_s.Models.{Json, queued, Execution, text, Error, http, ok}
use py_faa_s.Session.{
  Database, Session, Action, pure, raise_if, ◌>>=◌, ◌>>◌, query, on_session, on_service,
}
use py_faa_s.Functions.Delete.{is_unfinished}
use py_faa_s.Executions.{queue_execution}
use py_faa_s.Keys.{ApiKeyPrincipal}

pub record EphemeralExecutionRequest : Type 0 where
  pub code : String
  pub entrypoint : String
  pub event : Json
  pub timeout : ℕ
  pub memory_mb : ℕ

-- The job on the queue, without its constant fields.
pub record EphemeralJob : Type 0 where
  pub execution_id : ℕ
  pub entrypoint : String
  pub payload : Json
  pub timeout : ℕ
  pub memory_mb : ℕ
  pub source_code : String

abbrev pub gate_closed : Error
gate_closed = http 403 (
    text
      "Ephemeral raw-code execution requires SANDBOX_ENABLED=true. For local-only testing set EPHEMERAL_LOCAL_EXECUTION_ENABLED=true, but do not use that mode for untrusted code.")

-- `_enforce_ephemeral_gate`
unfoldable pub enforce_ephemeral_gate : {S : Type 0} → Settings → Action S (Unit {0})
enforce_ephemeral_gate settings =
    raise_if (not settings.sandbox_enabled && not settings.ephemeral_local_execution_enabled)
      gate_closed

abbrev pub is_counted : ℕ → Execution → Bool
is_counted key_id e =
    opt_eq e.api_key_id (some key_id)
    && str_eq e.execution_type "ephemeral"
    && is_unfinished e.status

abbrev pub active_count : ℕ → Database → ℕ
active_count key_id db = count_where (is_counted key_id) db.executions

abbrev pub new_ephemeral : ℕ → ℕ → EphemeralExecutionRequest → ApiKeyPrincipal → Execution
new_ephemeral id now body principal = record {
  id = id;
  function_id = none;
  function_version_id = none;
  triggered_by = some principal.user.id;
  api_key_id = some principal.key.id;
  execution_type = "ephemeral";
  schedule_id = none;
  status = queued;
  payload = body.event;
  result = none;
  error_message = none;
  failure_kind = none;
  worker_id = none;
  k8s_job_name = none;
  queued_at = some now;
  started_at = none;
  completed_at = none;
  duration_ms = none;
  attempt_number = 1;
  timeout = body.timeout;
}

abbrev pub ephemeral_job : ℕ → EphemeralExecutionRequest → EphemeralJob
ephemeral_job id body = record {
  execution_id = id;
  entrypoint = body.entrypoint;
  payload = body.event;
  timeout = body.timeout;
  memory_mb = body.memory_mb;
  source_code = body.code;
}

-- What the router uses of Redis. The first arguments of `incr` and `expire` are the key's id and the
-- minute, which make up the name of the counter.
pub record Redis : Type 1 where
  pub State : Type 0
  pub incr : ℕ → ℕ → Action State ℕ
  pub expire : ℕ → ℕ → ℕ → Action State (Unit {0})
  pub enqueue : ℕ → EphemeralJob → Action State (Unit {0})

module _ (str : ℕ → String) (show : Error → String) (redis : Redis) where
  open redis use {State, incr, expire, enqueue}

  abbrev pub rate_exceeded : Settings → Error
  rate_exceeded settings = http 429 (
      text (
        str_append "Ephemeral execution rate limit exceeded ("
          (str_append (str settings.ephemeral_rate_limit_per_minute) "/minute)")))

  abbrev pub concurrency_exceeded : Settings → Error
  concurrency_exceeded settings = http 429 (
      text (
        str_append "Ephemeral execution concurrency limit exceeded ("
          (str_append (str settings.ephemeral_concurrency_limit) ")")))

  -- `if count == 1: expire(…)`
  abbrev pub expire_first : ℕ → ℕ → ℕ → Action State (Unit {0})
  expire_first key_id minute count o =
      let expired = expire key_id minute 120 o in if count == 1 then expired else (ok tt, o)

  -- The rate limit: the half of `_enforce_rate_limits` that works on Redis.
  unfoldable pub enforce_rate : Settings → ℕ → ℕ → Action State (Unit {0})
  enforce_rate settings key_id minute = do
    count ← incr key_id minute
    expire_first key_id minute count
    raise_if (ltb settings.ephemeral_rate_limit_per_minute count) (rate_exceeded settings)

  -- The concurrency limit: the half that works on the database.
  unfoldable pub enforce_concurrency : Settings → ℕ → Action Session (Unit {0})
  enforce_concurrency settings key_id = do
    active ← query (active_count key_id)
    raise_if (leb settings.ephemeral_concurrency_limit active) (concurrency_exceeded settings)

  -- The checks before the execution is created.
  unfoldable pub admit : Settings → ℕ → ApiKeyPrincipal → Action (Session × State) (Unit {0})
  admit settings minute principal = do
    enforce_ephemeral_gate settings
    on_service (enforce_rate settings principal.key.id minute)
    on_session (enforce_concurrency settings principal.key.id)

  unfoldable pub execute_ephemeral :
      Settings
      → ℕ
      → ℕ
      → ℕ
      → EphemeralExecutionRequest
      → ApiKeyPrincipal
      → Action (Session × State) Execution
  execute_ephemeral settings id now minute body principal =
      admit settings minute principal
      >> queue_execution show enqueue (new_ephemeral id now body principal) (ephemeral_job id body)
