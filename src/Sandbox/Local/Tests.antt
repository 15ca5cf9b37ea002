-- ===== src/Sandbox/Local/Tests.antt =====
-- A run in the local mode, on the machine of the runner's tests.
use py_faa_s.Prelude.{◌≡◌, refl, none, some, []}
use py_faa_s.Config.{default_settings}
use py_faa_s.Models.{failed}
use py_faa_s.Worker.{new_status}
use py_faa_s.Sandbox.Manifest.{Python, JobSpec}
use py_faa_s.Sandbox.Runner.Main.{main}
use py_faa_s.Sandbox.Runner.Samples.{machine, container}
use py_faa_s.Sandbox.Local.{finished, docker_local_execute}
use py_faa_s.Sandbox.Local.Runs.{Recorded, main-Recorded}

abbrev python : Python
python = record { str_int = λ n. "5"; int = λ t. some 5; str_json = λ v. ""; json = machine.json }

main-Recorded_example :
    Recorded machine python default_settings (λ v. "") 12 (main machine container)
main-Recorded_example =
    main-Recorded machine python default_settings (λ v. "") 12
      (λ v. (refl, (refl, (refl, (refl, tt))))) container

abbrev spec : JobSpec
spec = record {
  execution_id = "e";
  function_id = "f";
  version_id = none;
  artifact_path = none;
  entrypoint = "handler.handler";
  payload = none;
  timeout = none;
  environment = none;
  memory_mb = none;
  source_code = some "def handler(): ...";
}

-- A process that is killed by its own fault fails without a result line.
crashed :
    new_status (
      docker_local_execute python default_settings
        (λ v. "")
        (λ env. finished 137 "")
        0
        9000
        []
        spec)
    ≡ failed
unfolding docker_local_execute new_status
crashed = refl
