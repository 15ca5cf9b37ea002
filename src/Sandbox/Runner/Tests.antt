-- ===== src/Sandbox/Runner/Tests.antt =====
-- The runner at work on inline source, whose handler prints a line that it does not end.
use py_faa_s.Prelude.{◌≡◌, refl}
use py_faa_s.Models.{ok}
use py_faa_s.Sandbox.Runner.Main.{main}
use py_faa_s.Sandbox.Runner.Exits.{Exits, main-Exits}
use py_faa_s.Sandbox.Runner.Secrets.{guarded, main-guarded}
use py_faa_s.Sandbox.Runner.Samples.{machine, container}

main-Exits_example : Exits machine (main machine container)
main-Exits_example = main-Exits machine container

main-guarded_example : main (guarded machine) container ≡ main machine container
main-guarded_example =
    main-guarded machine
      (record {
        mkdir-environ = λ d w. refl;
        rmtree-environ = λ d w. refl;
        write_text-environ = λ f t w. refl;
        sys_path_insert-environ = λ d w. refl;
        pip_install-environ = λ d r n w. refl;
      })
      container

-- The run ends with code 0.
exit_code : (main machine container).0 ≡ ok 0
unfolding main
exit_code = refl
