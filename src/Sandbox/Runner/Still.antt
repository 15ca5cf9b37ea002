-- ===== src/Sandbox/Runner/Still.antt =====
-- The calls before the user's code leave the environment alone.
use py_faa_s.Prelude.{ℕ, suc, zero, String, str_append, ◌≡◌, refl, ◌∙◌, Bool, true, false}
use py_faa_s.Models.{Result, ok, err}
use py_faa_s.Session.{◌>>=◌, ◌>>◌}
use py_faa_s.Sandbox.Runner.Platform.{World, Platform}
use py_faa_s.Sandbox.Runner.Code.{
  Step, print, install_timeout, installed, empty_dir, fresh_install, install_requirements,
}

-- The calls before the user's code that leave the environment alone.
pub record Quiet (p : Platform) : Type 0 where
  pub mkdir-environ : (d : String) (w : World p.F) → (p.mkdir d w).1.environ ≡ w.environ
  pub rmtree-environ : (d : String) (w : World p.F) → (p.rmtree d w).1.environ ≡ w.environ
  pub write_text-environ :
      (f t : String) (w : World p.F) → (p.write_text f t w).1.environ ≡ w.environ
  pub sys_path_insert-environ :
      (d : String) (w : World p.F) → (p.sys_path_insert d w).environ ≡ w.environ
  pub pip_install-environ :
      (d r : String) (n : ℕ) (w : World p.F) → (p.pip_install d r n w).1.environ ≡ w.environ

module _ (p : Platform) (quiet : Quiet p) where
  -- A step that keeps the environment.
  abbrev pub Still : {A : Type 0} → Step p A → Type 0
  Still m = (w : World p.F) → (m w).1.environ ≡ w.environ

  pub bind-Still :
      {A B : Type 0} (m : Step p A) (next : A → Step p B)
      → Still m
      → ((a : A) → Still (next a))
      → Still (m >>= next)
  bind-Still {A} {B} m next hm hn w = cases (m w) (hm w)
    where
      cases :
          (r : Result A × World p.F)
          → r.1.environ ≡ w.environ
          → (elim r.0 as (λ _. Result B × World p.F) [
            | ok a ↦ next a r.1
            | err e ↦ (err e, r.1)
          ]).1.environ
            ≡ w.environ
      cases (ok a, w') h = hn a w' ∙ h
      cases (err e, w') h = h

  pub empty_dir-Still : (deps : String) → Still (empty_dir p deps)
  unfolding empty_dir
  empty_dir-Still deps w = found (p.exists deps w) refl
    where
      found : (b : Bool) → p.exists deps w ≡ b → (empty_dir p deps w).1.environ ≡ w.environ
      found true e = rw e (
          bind-Still (p.rmtree deps) (λ _. p.mkdir deps) (quiet.rmtree-environ deps)
            (λ _. quiet.mkdir-environ deps) w)
      found false e = rw e (quiet.mkdir-environ deps w)

  pub print-Still : (t : String) → Still (print p t)
  unfolding print
  print-Still t w = refl

  pub announced-Still : (deps t : String) → Still (empty_dir p deps >> print p t)
  announced-Still deps t =
      bind-Still (empty_dir p deps) (λ _. print p t) (empty_dir-Still deps) (λ _. print-Still t)

  pub installed-Still :
      (deps marker : String) (done : ℕ × String) → Still (installed p deps marker done)
  installed-Still deps marker (zero, out) w =
      bind-Still (p.write_text marker (p.time_text w)) (λ _ w'. (ok tt, p.sys_path_insert deps w'))
        (quiet.write_text-environ marker (p.time_text w)) (λ _. quiet.sys_path_insert-environ deps)
        w
  installed-Still deps marker (suc n, out) w = refl

  pub fresh_install-Still :
      (requirements deps marker : String) (limit : ℕ)
      → Still (fresh_install p requirements deps marker limit)
  unfolding fresh_install
  fresh_install-Still requirements deps marker limit =
      bind-Still
        (empty_dir p deps
          >> print p "[sopm-runner] installing dependencies from requirements.txt"
          >> p.pip_install deps requirements (install_timeout p limit))
        (installed p deps marker)
        (bind-Still
          (empty_dir p deps
            >> print p "[sopm-runner] installing dependencies from requirements.txt")
          (λ _. p.pip_install deps requirements (install_timeout p limit))
          (announced-Still deps "[sopm-runner] installing dependencies from requirements.txt")
          (λ _. quiet.pip_install-environ deps requirements (install_timeout p limit)))
        (installed-Still deps marker)

  pub install_requirements-Still :
      (work_dir deps : String) (limit : ℕ) → Still (install_requirements p work_dir deps limit)
  unfolding install_requirements
  install_requirements-Still work_dir deps limit w =
      found (p.exists (str_append work_dir "/requirements.txt") w)
        (p.exists (str_append deps "/.sopm-installed") w) refl refl
    where
      found :
          (b c : Bool)
          → p.exists (str_append work_dir "/requirements.txt") w ≡ b
          → p.exists (str_append deps "/.sopm-installed") w ≡ c
          → (install_requirements p work_dir deps limit w).1.environ ≡ w.environ
      found false c e f = rw e refl
      found true true e f = rw (e, f) (quiet.sys_path_insert-environ deps w)
      found true false e f =
          rw (e, f)
            (fresh_install-Still (str_append work_dir "/requirements.txt") deps
              (str_append deps "/.sopm-installed") limit w)
