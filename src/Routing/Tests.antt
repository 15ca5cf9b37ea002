-- ===== src/Routing/Tests.antt =====
-- Routing at work.
use py_faa_s.Prelude.{ℕ, Option, ◌≡◌, refl, ◌⊎◌, true, none, some, [], ◌∷◌, arith, opt_eq}
use py_faa_s.Models.{Function, FunctionStatus, FunctionVersion, null}
use py_faa_s.Session.{Database}
use py_faa_s.Routing.{route, choose_execution_version}
use py_faa_s.Routing.Share.{draws_where, canary_share, choose_execution_version_lem}

-- Version 21 is the canary for a tenth of the calls.
abbrev fn : Function
fn = record {
  id = 10;
  owner_id = 1;
  name = "resize";
  description = none;
  runtime = "python3.12";
  status = FunctionStatus.active;
  active_version_id = some 20;
  canary_version_id = some 21;
  canary_percent = 10;
  tags = null;
}

abbrev version : ℕ → FunctionVersion
version id = record {
  id = id;
  function_id = 10;
  version_number = id;
  entrypoint = "handler.handler";
  artifact_path = "a";
  artifact_hash = "";
  artifact_size = 1;
  environment = null;
  timeout = 300;
  memory_mb = 128;
  is_active = true;
  change_notes = none;
}

abbrev db : Database
db = record {
  users = [];
  api_keys = [];
  functions = fn ∷ [];
  versions = version 20 ∷ version 21 ∷ [];
  activations = [];
  executions = [];
  logs = [];
  schedules = [];
}

canary_share_example : draws_where 100 (λ d. opt_eq (route fn none d) (some 21)) ≡ 10
canary_share_example = canary_share fn 21 refl refl (omega arith)

choose_execution_version_lem_example :
    ((version 21).function_id ≡ fn.id)
    × ((version 21).is_active ≡ true)
    × ((◌≡◌ {A = Option ℕ} none (some 21))
        ⊎ ((◌≡◌ {A = Option ℕ} none none)
            × ((fn.active_version_id ≡ some 21) ⊎ (fn.canary_version_id ≡ some 21))))
unfolding choose_execution_version
choose_execution_version_lem_example =
    choose_execution_version_lem fn none 9 (record { live = db; saved = db }) (version 21) refl
