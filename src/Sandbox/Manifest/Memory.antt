-- ===== src/Sandbox/Manifest/Memory.antt =====
-- The memory that a job asks for and the memory that it may use.
use text.Mathlib.TextEquality.{eq_iff}
use text.Mathlib.TextLemmas.{nil-append, cons-append}
use py_faa_s.Prelude.{
  ℕ, suc, ◌≤◌, String, str_append, str_eq, ◌≡◌, refl, ap, some, false, arith, Bool-cases, inl, inr,
}
use py_faa_s.Prelude.Lines.{characters, characters-append}
use py_faa_s.Config.{Settings}
use py_faa_s.Sandbox.Manifest.{
  Python, JobSpec, remove_mi, memory_limit, memory_request, request_mib, runner_container,
}

-- A text of more than two characters is not "Mi".
longer_ne_mi :
    (c : Prim.Native.Char.Char) (s : String)
    → str_eq (String.◌∷◌ c (str_append s "Mi")) "Mi" ≡ false
longer_ne_mi c s = elim (Bool-cases (str_eq (String.◌∷◌ c (str_append s "Mi")) "Mi")) [
  | inl e ↦ absurd (omega (arith, ap characters ((eq_iff _ _).0 e), characters-append s "Mi"))
  | inr e ↦ e
]

remove_mi-append : (s : String) → remove_mi (str_append s "Mi") ≡ s
unfolding remove_mi
remove_mi-append String.[] = ap remove_mi (nil-append "Mi")
remove_mi-append (String.◌∷◌ c s) =
    rw (cons-append c s "Mi", longer_ne_mi c s) (ap (String.◌∷◌ c) (remove_mi-append s))

request_mib_bounds :
    (n : ℕ) (python : Python) (settings : Settings)
    → (request_mib python settings n ≤ n) × (request_mib python settings n ≤ 128)
request_mib_bounds n python settings = ground arith

memory_request-mi :
    (python : Python) (settings : Settings) (n : ℕ)
    → python.int (python.str_int n) ≡ some n
    → memory_request python settings (str_append (python.str_int n) "Mi")
      ≡ str_append (python.str_int (request_mib python settings n)) "Mi"
unfolding memory_request
memory_request-mi python settings n back = rw (remove_mi-append (python.str_int n), back) refl

-- For a job of at least one MiB, where `int` reads back what `str` makes of its size, the container
-- is limited to the size and asks for no more than its limit and no more than 128 MiB.
pub runner_container-memory :
    (python : Python) (settings : Settings) (spec : JobSpec) (n : ℕ)
    → spec.memory_mb ≡ some (suc n)
    → python.int (python.str_int (suc n)) ≡ some (suc n)
    → let resources = (runner_container python settings spec).resources in
      (resources.limit_memory ≡ str_append (python.str_int (suc n)) "Mi")
      × ((m : ℕ) × (resources.request_memory ≡ str_append (python.str_int m) "Mi")
          × (m ≤ suc n)
          × (m ≤ 128))
unfolding runner_container memory_limit memory_request
runner_container-memory python settings spec n h back = (
  rw h refl,
  (
    request_mib python settings (suc n),
    rw h (memory_request-mi python settings (suc n) back),
    (request_mib_bounds (suc n) python settings).0,
    (request_mib_bounds (suc n) python settings).1,
  ),
)
