-- ===== src/Sandbox/Runner/Secrets.antt =====
-- The user's code does not see the credentials of the object store.
use py_faa_s.Prelude.{
  ℕ, String, str_append, ◌≡◌, refl, ap, ◌∙◌, Bool, true, false, Option, none, some, if◌then◌else◌,
}
use mathlib.Core.Path.{fun_ext}
use py_faa_s.Sandbox.Manifest.{get_or}
use py_faa_s.Models.{Result, ok, err, Error, raised, text}
use py_faa_s.Session.{◌>>=◌, ◌>>◌, lift}
use py_faa_s.Sandbox.Runner.Platform.{
  getenv, Options, read_options, World, Platform, rsplit_dot, module_file,
}
use py_faa_s.Sandbox.Runner.Code.{
  Step, print, print_error, download_artifact, extract_archive, write_inline_source,
  install_timeout, installed, empty_dir, fresh_install, install_requirements, attribute, loaded,
  load_handler,
}
use py_faa_s.Sandbox.Runner.Main.{
  handled, attempt, report, report_failure, report_install, complete, run_handler, report_as,
  execute_handler, remove_secrets, user_part, extract_source, fetch_source, fetch, prepare,
  read_timeout, started, main,
}
use py_faa_s.Sandbox.Runner.Environ.{has_secret, without_secrets-has_secret}
use py_faa_s.Sandbox.Runner.Still.{Quiet, Still, announced-Still, install_requirements-Still}

abbrev leak : Error
leak = raised (text "a secret is in the environment")

-- A platform on which neither pip nor the user's module runs while a secret is in the environment.
abbrev pub guarded : Platform → Platform
guarded p = record p {
  pip_install = λ deps requirements limit w.
      if has_secret w.environ then (err leak, w) else p.pip_install deps requirements limit w;
  import_module =
      λ name file w. if has_secret w.environ then (err leak, w) else p.import_module name file w;
}

module _ (p : Platform) (quiet : Quiet p) where
  -- Two continuations that agree where no secret is in sight.
  bind-same :
      {A B : Type 0} (m : Step p A) (f g : A → Step p B)
      → Still p quiet m
      → ((a : A) (w : World p.F) → has_secret w.environ ≡ false → f a w ≡ g a w)
      → (w : World p.F) → has_secret w.environ ≡ false
      → (m >>= f) w ≡ (m >>= g) w
  bind-same {A} {B} m f g hm same w clean = cases (m w) (hm w)
    where
      cases :
          (r : Result A × World p.F)
          → r.1.environ ≡ w.environ
          → elim r.0 as (λ _. Result B × World p.F) [ ok a ↦ f a r.1 | err e ↦ (err e, r.1) ]
            ≡ elim r.0 as (λ _. Result B × World p.F) [ ok a ↦ g a r.1 | err e ↦ (err e, r.1) ]
      cases (ok a, w') h = same a w' (ap has_secret h ∙ clean)
      cases (err e, w') h = refl

  bind-after :
      {A B : Type 0} (m m' : Step p A) (f : A → Step p B) (w : World p.F)
      → m w ≡ m' w
      → (m >>= f) w ≡ (m' >>= f) w
  bind-after {A} {B} m m' f w e =
      ap
        (λ (r : Result A × World p.F). elim r.0 as (λ _. Result B × World p.F) [
          | ok a ↦ f a r.1
          | err x ↦ (err x, r.1)
        ])
        e

  pip-guarded :
      (deps requirements : String) (limit : ℕ) (w : World p.F)
      → has_secret w.environ ≡ false
      → (guarded p).pip_install deps requirements limit w ≡ p.pip_install deps requirements limit w
  pip-guarded deps requirements limit w clean = rw clean refl

  fresh_install-guarded :
      (requirements deps marker : String) (limit : ℕ) (w : World p.F)
      → has_secret w.environ ≡ false
      → fresh_install (guarded p) requirements deps marker limit w
        ≡ fresh_install p requirements deps marker limit w
  unfolding fresh_install print empty_dir
  fresh_install-guarded requirements deps marker limit w clean =
      bind-after
        (empty_dir p deps
          >> print p "[sopm-runner] installing dependencies from requirements.txt"
          >> (guarded p).pip_install deps requirements (install_timeout p limit))
        (empty_dir p deps
          >> print p "[sopm-runner] installing dependencies from requirements.txt"
          >> p.pip_install deps requirements (install_timeout p limit))
        (installed p deps marker) w
        (bind-same
          (empty_dir p deps
            >> print p "[sopm-runner] installing dependencies from requirements.txt")
          (λ _. (guarded p).pip_install deps requirements (install_timeout p limit))
          (λ _. p.pip_install deps requirements (install_timeout p limit))
          (announced-Still p quiet deps
            "[sopm-runner] installing dependencies from requirements.txt")
          (λ _. pip-guarded deps requirements (install_timeout p limit)) w clean)

  install_requirements-guarded :
      (work_dir deps : String) (limit : ℕ) (w : World p.F)
      → has_secret w.environ ≡ false
      → install_requirements (guarded p) work_dir deps limit w
        ≡ install_requirements p work_dir deps limit w
  unfolding install_requirements
  install_requirements-guarded work_dir deps limit w clean =
      rw
        (fresh_install-guarded (str_append work_dir "/requirements.txt") deps
          (str_append deps "/.sopm-installed") limit w clean)
        refl

  import-guarded :
      (name file : String) (w : World p.F)
      → has_secret w.environ ≡ false
      → (guarded p).import_module name file w ≡ p.import_module name file w
  import-guarded name file w clean = rw clean refl

  loaded-guarded :
      (work_dir entrypoint : String) (parts : Option (String × String)) (w : World p.F)
      → has_secret w.environ ≡ false
      → loaded (guarded p) work_dir entrypoint parts w ≡ loaded p work_dir entrypoint parts w
  loaded-guarded work_dir entrypoint none w clean = refl
  loaded-guarded work_dir entrypoint (some (module_path, func_name)) w clean =
      found (p.exists file w) refl
    where
      file : String
      file = module_file work_dir module_path

      entry : Option (String × String)
      entry = some (module_path, func_name)

      found :
          (b : Bool)
          → p.exists file w ≡ b
          → loaded (guarded p) work_dir entrypoint entry w ≡ loaded p work_dir entrypoint entry w
      found false e = rw e refl
      found true e = rw e (
          bind-after ((guarded p).import_module module_path file) (p.import_module module_path file)
            (λ attributes. lift (attribute p module_path func_name attributes))
            (p.sys_path_insert work_dir w)
            (import-guarded module_path file (p.sys_path_insert work_dir w)
              (ap has_secret (quiet.sys_path_insert-environ work_dir w) ∙ clean)))

  load_handler-guarded :
      (work_dir entrypoint : String) (w : World p.F)
      → has_secret w.environ ≡ false
      → load_handler (guarded p) work_dir entrypoint w ≡ load_handler p work_dir entrypoint w
  unfolding load_handler
  load_handler-guarded work_dir entrypoint w clean =
      loaded-guarded work_dir entrypoint (rsplit_dot entrypoint) w clean

  -- The handlers of exceptions and the call of the handler use neither guarded function.
  attempt-guarded :
      {A : Type 0} (m m' : Step p A) (on_error : Error → Step p ℕ) (f g : A → Step p ℕ)
      → Still p quiet m
      → ((a : A) (w : World p.F) → has_secret w.environ ≡ false → f a w ≡ g a w)
      → (w : World p.F) → has_secret w.environ ≡ false
      → m' w ≡ m w
      → attempt p m' on_error f w ≡ attempt p m on_error g w
  unfolding attempt
  attempt-guarded {A} m m' on_error f g hm same w clean e = rw e (cases (m w) (hm w))
    where
      cases :
          (r : Result A × World p.F)
          → r.1.environ ≡ w.environ
          → handled p on_error f r.0 r.1 ≡ handled p on_error g r.0 r.1
      cases (ok a, w') h = same a w' (ap has_secret h ∙ clean)
      cases (err exc, w') h = refl

  execute_handler-guarded :
      (o : Options) (limit : ℕ) (h : p.H) (w : World p.F)
      → execute_handler (guarded p) o.execution_id o.entrypoint o.payload_raw limit h w
        ≡ execute_handler p o.execution_id o.entrypoint o.payload_raw limit h w
  unfolding execute_handler run_handler complete report_as report attempt print print_error
  execute_handler-guarded o limit h w = refl

  load_part-guarded :
      (o : Options) (limit : ℕ) (w : World p.F)
      → has_secret w.environ ≡ false
      → attempt
          (guarded p)
          (load_handler (guarded p) o.work_dir o.entrypoint)
          (report_failure (guarded p) "handler load failed")
          (execute_handler (guarded p) o.execution_id o.entrypoint o.payload_raw limit)
          w
        ≡ attempt p
            (load_handler p o.work_dir o.entrypoint)
            (report_failure p "handler load failed")
            (execute_handler p o.execution_id o.entrypoint o.payload_raw limit)
            w
  unfolding attempt report print print_error
  load_part-guarded o limit w clean =
      rw (load_handler-guarded o.work_dir o.entrypoint w clean)
        (cases (load_handler p o.work_dir o.entrypoint w))
    where
      cases :
          (r : Result p.H × World p.F)
          → handled
              (guarded p)
              (report_failure (guarded p) "handler load failed")
              (execute_handler (guarded p) o.execution_id o.entrypoint o.payload_raw limit)
              r.0
              r.1
            ≡ handled p
                (report_failure p "handler load failed")
                (execute_handler p o.execution_id o.entrypoint o.payload_raw limit)
                r.0
                r.1
      cases (ok h, w') = execute_handler-guarded o limit h w'
      cases (err exc, w') = refl

  user_part-guarded :
      (o : Options) (limit : ℕ) (w : World p.F)
      → user_part (guarded p) o limit w ≡ user_part p o limit w
  unfolding user_part report attempt print print_error
  user_part-guarded o limit w =
      attempt-guarded (install_requirements p o.work_dir o.deps_dir limit)
        (install_requirements (guarded p) o.work_dir o.deps_dir limit) (report_install p) _ _
        (install_requirements-Still p quiet o.work_dir o.deps_dir limit)
        (λ _. load_part-guarded o limit) w0 clean
        (install_requirements-guarded o.work_dir o.deps_dir limit w0 clean)
    where
      w0 : World p.F
      w0 = (remove_secrets p w).1

      clean : has_secret w0.environ ≡ false
      clean = without_secrets-has_secret p w.environ

  prepare-guarded :
      (o : Options) (next : Step p ℕ) (source_code : Option String) (w : World p.F)
      → prepare (guarded p) o.work_dir o.entrypoint o.artifact_path source_code next w
        ≡ prepare p o.work_dir o.entrypoint o.artifact_path source_code next w
  unfolding prepare fetch fetch_source attempt report print print_error download_artifact
      extract_source extract_archive write_inline_source
  prepare-guarded o next (some source_code) w = refl
  prepare-guarded o next none w = refl

  started-guarded :
      (o : Options) (limit : ℕ) (w : World p.F)
      → started (guarded p) o limit w ≡ started p o limit w
  unfolding started print
  started-guarded o limit w =
      cases (
        (p.mkdir o.work_dir >> print p (str_append "[sopm-runner] execution_id=" o.execution_id)) w)
    where
      cases :
          (r : Result (Unit {0}) × World p.F)
          → elim r.0 as (λ _. Result ℕ × World p.F) [
            | ok _ ↦
                prepare
                  (guarded p)
                  o.work_dir
                  o.entrypoint
                  o.artifact_path
                  o.source_code
                  (user_part (guarded p) o limit)
                  r.1
            | err e ↦ (err e, r.1)
          ]
            ≡ elim r.0 as (λ _. Result ℕ × World p.F) [
              | ok _ ↦
                  prepare p o.work_dir o.entrypoint o.artifact_path o.source_code
                    (user_part p o limit)
                    r.1
              | err e ↦ (err e, r.1)
            ]
      cases (ok _, w') =
          prepare-guarded o (user_part (guarded p) o limit) o.source_code w'
          ∙ ap (λ next. prepare p o.work_dir o.entrypoint o.artifact_path o.source_code next w')
              (fun_ext (user_part-guarded o limit))
      cases (err e, w') = refl

  -- pip and the user's module run only where none of the three variables with the credentials of the
  -- object store is left: where the calls before them leave the environment alone, the run of `main` is
  -- that of a platform on which both refuse to work while one of the variables is set.
  pub main-guarded : (w : World p.F) → main (guarded p) w ≡ main p w
  unfolding main
  main-guarded w = cases (read_timeout p (p.int (get_or (getenv "SOPM_TIMEOUT" w.environ) "300")))
    where
      cases :
          (r : Result ℕ)
          → elim r as (λ _. Result ℕ × World p.F) [
            | ok limit ↦ started (guarded p) (read_options w.environ) limit w
            | err e ↦ (err e, w)
          ]
            ≡ elim r as (λ _. Result ℕ × World p.F) [
              | ok limit ↦ started p (read_options w.environ) limit w
              | err e ↦ (err e, w)
            ]
      cases (ok limit) = started-guarded (read_options w.environ) limit w
      cases (err e) = refl
