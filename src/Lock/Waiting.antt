-- ===== src/Lock/Waiting.antt =====
-- The loop of `acquire` ends.
use py_faa_s.Prelude.{
  ℕ, zero, suc, ◌+◌, ◌*◌, ◌≤◌, ltb, String, ◌≡◌, refl, Bool, true, false, Option, some, arith,
  Bool-cases, inl, inr,
}
use py_faa_s.Models.{Result, ok, err}
use py_faa_s.Lock.{KeyStore, Attempts, after_try, acquire_loop, acquire, lock_name}

abbrev pub Returned {ℓ} : {A : Type ℓ} → Option A → Type ℓ
Returned {A = A} o = (a : A) × (o ≡ some a)

le→ltb : (a b : ℕ) → b ≤ a → ltb a b ≡ false
le→ltb a b h = ground arith

module _ (redis : KeyStore) (name token : String) (timeout : ℕ) where
  open redis use {State, now, sleep, set_nx}

  continued :
      (again : State → Attempts redis) (q : Result Bool × State)
      → Returned (again (sleep 100000 q.1))
      → Returned (after_try redis again q)
  continued again (err exc, s) h = ((err exc, s), refl)
  continued again (ok true, s) h = ((ok true, s), refl)
  continued again (ok false, s) h = h

  acquire_loop-returns :
      (fuel deadline : ℕ) (s : State)
      → deadline ≤ now s + fuel * 100000
      → Returned (acquire_loop redis (suc fuel) name token timeout deadline s)
  unfolding acquire_loop
  acquire_loop-returns zero deadline s h =
      rw (le→ltb (now s) deadline (omega arith)) ((ok false, s), refl)
  acquire_loop-returns (suc fuel) deadline s h = elim (Bool-cases (ltb (now s) deadline)) [
    | inl more ↦
        let s' = (set_nx name token timeout s).1 in
        rw more (
          continued (acquire_loop redis (suc fuel) name token timeout deadline)
            (set_nx name token timeout s)
            (acquire_loop-returns fuel deadline (sleep 100000 s')
              (omega (arith, redis.now-set_nx name token timeout s, redis.now-sleep 100000 s'))))
    | inr done ↦ rw done ((ok false, s), refl)
  ]

-- An attempt ends within ten rounds for each second of its wait and one more.
pub acquire-returns :
    (redis : KeyStore) (name token : String) (timeout wait : ℕ) (s : redis.State)
    → Returned (acquire redis name token timeout wait s)
unfolding acquire
acquire-returns redis name token timeout wait s =
    acquire_loop-returns redis (lock_name name) token timeout (wait * 10)
      (redis.now s + wait * 1000000) s (omega arith)
