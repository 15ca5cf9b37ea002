-- ===== src/Models/Tests.antt =====
-- Executions at work.
use py_faa_s.Prelude.{◌+◌, ◌≤◌, ◌≡◌, refl, ◌⊎◌, none, some, List, [], ◌∷◌}
use py_faa_s.Models.{
  ExecutionStatus, queued, running, completed, cancelled, failed, Execution, null, ok, err,
  value_error, invalid_transition, transition_to,
}
use py_faa_s.Models.Lifecycle.{
  attempts, Arrow, attempts_bound, attempts_at_terminal, transition_to_decides,
}

abbrev execution : ExecutionStatus → Execution
execution s = record {
  id = 7;
  function_id = some 10;
  function_version_id = some 20;
  triggered_by = some 1;
  api_key_id = none;
  execution_type = "function";
  schedule_id = none;
  status = s;
  payload = null;
  result = none;
  error_message = none;
  failure_kind = none;
  worker_id = none;
  k8s_job_name = none;
  queued_at = some 100;
  started_at = none;
  completed_at = none;
  duration_ms = none;
  attempt_number = 1;
  timeout = 300;
}

abbrev calls : List ExecutionStatus
calls = running ∷ queued ∷ completed ∷ failed ∷ []

two_calls_return : attempts calls (execution queued) ≡ (execution completed, 2)
unfolding transition_to
two_calls_return = refl

attempts_bound_example : 1 + (attempts calls (execution queued)).1 ≤ 3
attempts_bound_example = attempts_bound calls (execution queued)

cancelled_stays : attempts calls (execution cancelled) ≡ (execution cancelled, 0)
cancelled_stays = attempts_at_terminal calls (execution cancelled) refl

transition_to_decides_example :
    (Arrow queued completed
      × (transition_to completed (execution queued) ≡ ok (execution completed)))
    ⊎ ((¬ Arrow queued completed)
        × (transition_to completed (execution queued)
            ≡ err (value_error (invalid_transition queued completed))))
transition_to_decides_example = transition_to_decides completed (execution queued)
