-- ===== src/Sandbox/Kubernetes/Waiting.antt =====
-- The loop of `_wait_for_job` ends, and so does `execute`.
use py_faa_s.Prelude.{
  ℕ, zero, suc, ◌+◌, ◌*◌, ◌≤◌, ltb, String, ◌≡◌, refl, Bool, false, Option, none, some, arith,
  Bool-cases, inl, inr,
}
use py_faa_s.Config.{Settings}
use py_faa_s.Models.{Result, ok, err}
use py_faa_s.Sandbox.Results.{SandboxResult}
use py_faa_s.Sandbox.Manifest.{JobSpec, Python, get_or}
use py_faa_s.Sandbox.Cluster.{Cluster}
use py_faa_s.Sandbox.Kubernetes.{
  wait_loop, wait_for_job, poll, polled, get_pod_logs, classify_failed_job, after_poll,
  poll_interval, execute, run_job, Ended, Answer, cleaned_up, awaited, job_name_of,
}

-- What a call returned.
abbrev pub Returned {ℓ} : {A : Type ℓ} → Option A → Type ℓ
Returned {A = A} o = (a : A) × (o ≡ some a)

le→ltb : (a b : ℕ) → b ≤ a → ltb a b ≡ false
le→ltb a b h = ground arith

module _ (cluster : Cluster) (python : Python) (settings : Settings) where
  open cluster use {State, now, sleep}

  -- A round that finds the job unfinished has only read it.
  poll-none :
      (job_name : String) (s : State)
      → (poll cluster python settings job_name s).0 ≡ ok none
      → now s ≤ now (poll cluster python settings job_name s).1
  unfolding poll polled get_pod_logs classify_failed_job
  poll-none job_name s h =
      ground (arith, cluster.now-read_namespaced_job job_name settings.sandbox_namespace s)

  continued :
      (next : State → Ended cluster python settings) (r : Result (Option SandboxResult) × State)
      → (r.0 ≡ ok none → Returned (next (sleep poll_interval r.1)))
      → Returned (after_poll cluster python settings next r)
  continued next (err exc, s) h = ((err exc, s), refl)
  continued next (ok (some result), s) h = ((ok result, s), refl)
  continued next (ok none, s) h = h refl

  wait_loop-returns :
      (fuel : ℕ) (job_name : String) (deadline : ℕ) (s : State)
      → deadline ≤ now s + fuel * 250000
      → Returned (wait_loop cluster python settings (suc fuel) job_name deadline s)
  unfolding wait_loop
  wait_loop-returns zero job_name deadline s h =
      rw (le→ltb (now s) deadline (omega arith)) ((ok _, s), refl)
  wait_loop-returns (suc fuel) job_name deadline s h = elim (Bool-cases (ltb (now s) deadline)) [
    | inl more ↦ rw more (
        continued (wait_loop cluster python settings (suc fuel) job_name deadline)
          (poll cluster python settings job_name s)
          (λ e.
            let s' = (poll cluster python settings job_name s).1 in
            wait_loop-returns fuel job_name deadline (sleep poll_interval s')
              (omega (arith, poll-none job_name s e, cluster.now-sleep poll_interval s'))))
    | inr done ↦ rw done ((ok _, s), refl)
  ]

  -- The loop polls at most four times a second until ten seconds after the timeout: where a sleep
  -- lasts at least its time and the clock does not run backwards, it returns or raises within that many
  -- rounds, whatever the cluster answers.
  pub wait_for_job-returns :
      (job_name : String) (timeout : ℕ) (s : State)
      → Returned (wait_for_job cluster python settings job_name timeout s)
  unfolding wait_for_job
  wait_for_job-returns job_name timeout s =
      wait_loop-returns ((timeout + 10) * 4) job_name (now s + (timeout + 10) * 1000000) s
        (omega arith)

  awaited-returns :
      (job_name : String) (spec : JobSpec) (started : Result (Unit {0}) × Bool × State)
      → Returned (awaited cluster python settings job_name spec started)
  awaited-returns job_name spec (err exc, checked, s) = (_, refl)
  awaited-returns job_name spec (ok tt, checked, s) =
      let (r, e) =
        wait_for_job-returns job_name (get_or spec.timeout settings.sandbox_default_timeout) s in
      rw e ((r.0, checked, r.1), refl)

  cleaned_up-returns :
      (job_name : String) (start : ℕ) (answer : Answer cluster python settings)
      → Returned answer
      → Returned (cleaned_up cluster python settings job_name start answer)
  cleaned_up-returns job_name start none (r, e) = absurd (cc e)
  cleaned_up-returns job_name start (some (r, checked, s)) h = (_, refl)

  -- `execute` returns or raises, since its loop does.
  pub execute-returns :
      (checked : Bool) (suffix : String) (spec : JobSpec) (s : State)
      → Returned (execute cluster python settings checked suffix spec s)
  unfolding execute run_job
  execute-returns checked suffix spec s =
      cleaned_up-returns (job_name_of spec suffix) (now s) _
        (awaited-returns (job_name_of spec suffix) spec _)
