-- ===== src/Lock/Held.antt =====
-- A lock that is held stays with its holder until it expires or is released.
use mathlib.Core.Path.{subst}
use py_faa_s.Prelude.{
  ℕ, zero, suc, ◌+◌, ◌*◌, ◌<◌, ◌≤◌, ltb, String, str_eq, eq_iff, ◌≡◌, ◌≢◌, refl, sym, ap, ◌∙◌, Bool,
  true, false, Option, none, some, arith, Bool-cases, inl, inr,
}
use py_faa_s.Models.{Result, ok, err}
use py_faa_s.Lock.{
  KeyStore, Attempts, after_try, acquire_loop, acquire, lock_name, release, compare_and_delete,
  is_token,
}

some-inj : {A : Type 0} {a b : A} → some a ≡ some b → a ≡ b
some-inj h = cc

module _ (redis : KeyStore) (name owner : String) (until : ℕ) where
  open redis use {State, now, sleep, get, expires, set_nx}

  -- The key has the owner's token, and expires at `until`.
  pub record Held (s : State) : Type 0 where
    pub token_set : get (lock_name name) s ≡ some owner
    pub expiry : expires (lock_name name) s ≡ until

  -- What an attempt that starts while the lock is held, and ends before it expires, comes to.
  pub record Fails (s : State) (r : Result Bool × State) : Type 0 where
    pub not_acquired : r.0 ≢ ok true
    pub still_held : Held r.1
    pub later : now s ≤ now r.1

  after_try-later :
      (again : State → Attempts redis) (q r : Result Bool × State)
      → ((s : State) → again s ≡ some r → now s ≤ now r.1)
      → after_try redis again q ≡ some r
      → now q.1 ≤ now r.1
  after_try-later again (err exc, s) r h e =
      subst (λ (x : Result Bool × State). now s ≤ now x.1) (some-inj e) (omega arith)
  after_try-later again (ok true, s) r h e =
      subst (λ (x : Result Bool × State). now s ≤ now x.1) (some-inj e) (omega arith)
  after_try-later again (ok false, s) r h e =
      omega (arith, redis.now-sleep 100000 s, h (sleep 100000 s) e)

  acquire_loop-later :
      (fuel : ℕ) (token : String) (timeout deadline : ℕ) (r : Result Bool × State) (s : State)
      → acquire_loop redis fuel (lock_name name) token timeout deadline s ≡ some r
      → now s ≤ now r.1
  unfolding acquire_loop
  acquire_loop-later zero token timeout deadline r s e = absurd (cc)
  acquire_loop-later (suc fuel) token timeout deadline r s e =
      elim (Bool-cases (ltb (now s) deadline)) [
        | inl more ↦ omega (
          arith,
          redis.now-set_nx (lock_name name) token timeout s,
          after_try-later (acquire_loop redis fuel (lock_name name) token timeout deadline)
              (set_nx (lock_name name) token timeout s) r
              (acquire_loop-later fuel token timeout deadline r) (rw more at e),
        )
        | inr done ↦
            subst (λ (x : Result Bool × State). now s ≤ now x.1) (some-inj (rw done at e))
              (omega arith)
      ]

  -- One command of another client, and what its loop does next.
  after_try-Fails :
      (again : State → Attempts redis) (s : State) (q r : Result Bool × State)
      → ((s' : State) → again s' ≡ some r → Held s' → Fails s' r)
      → ((s' : State) → again s' ≡ some r → now s' ≤ now r.1)
      → after_try redis again q ≡ some r
      → now r.1 < until
      → now s ≤ now q.1
      → q.0 ≢ ok true
      → Held q.1
      → Fails s r
  after_try-Fails again s (err exc, s1) r ih later e lt le ne h =
      subst (Fails s) (some-inj e) (record { not_acquired = λ k. cc; still_held = h; later = le })
  after_try-Fails again s (ok true, s1) r ih later e lt le ne h = absurd (ne refl)
  after_try-Fails again s (ok false, s1) r ih later e lt le ne h =
      let before : now (sleep 100000 s1) < expires (lock_name name) s1 =
        omega (arith, later (sleep 100000 s1) e, h.expiry) in
      let (value, expiry) = redis.get-sleep 100000 (lock_name name) owner s1 h.token_set before in
      let held : Held (sleep 100000 s1) = record {
        token_set = value;
        expiry = expiry ∙ h.expiry;
      } in
      let rest : Fails (sleep 100000 s1) r = ih (sleep 100000 s1) e held in
      record {
        not_acquired = rest.not_acquired;
        still_held = rest.still_held;
        later = omega (arith, redis.now-sleep 100000 s1, rest.later, le);
      }

  acquire_loop-Fails :
      (fuel : ℕ) (token : String) (timeout deadline : ℕ) (s : State) (r : Result Bool × State)
      → acquire_loop redis fuel (lock_name name) token timeout deadline s ≡ some r
      → now r.1 < until
      → Held s
      → Fails s r
  unfolding acquire_loop
  acquire_loop-Fails zero token timeout deadline s r e lt h = absurd (cc)
  acquire_loop-Fails (suc fuel) token timeout deadline s r e lt h =
      elim (Bool-cases (ltb (now s) deadline)) [
        | inl more ↦
            tried (λ s' e' h'. acquire_loop-Fails fuel token timeout deadline s' r e' lt h')
              (rw more at e)
        | inr done ↦
            subst (Fails s) (some-inj (rw done at e))
              (record { not_acquired = λ k. cc; still_held = h; later = omega arith })
      ]
    where
      again : State → Attempts redis
      again = acquire_loop redis fuel (lock_name name) token timeout deadline

      q : Result Bool × State
      q = set_nx (lock_name name) token timeout s

      later : (s' : State) → again s' ≡ some r → now s' ≤ now r.1
      later = acquire_loop-later fuel token timeout deadline r

      tried :
          ((s' : State) → again s' ≡ some r → Held s' → Fails s' r)
          → after_try redis again q ≡ some r
          → Fails s r
      tried ih k =
          let before : now q.1 < expires (lock_name name) s =
            omega (arith, after_try-later again q r later k, h.expiry) in
          let (refused, value, expiry) =
            redis.set_nx-taken (lock_name name) owner token timeout s h.token_set before in
          after_try-Fails again s q r ih later k lt
            (redis.now-set_nx (lock_name name) token timeout s) refused
            (record { token_set = value; expiry = expiry ∙ h.expiry })

  -- What the clients do with the lock: attempts of any of them, releases by clients with another
  -- token or none, and time that passes.
  pub data Step (s s' : State) : Type 0 where
    attempted :
        (token : String) (timeout wait : ℕ) (r : Result Bool)
        → acquire redis name token timeout wait s ≡ some (r, s')
        → Step s s'
    released :
        (token : Option String) → token ≢ some owner → s' ≡ release redis name token s → Step s s'
    waited : (n : ℕ) → s' ≡ sleep n s → Step s s'

  pub data Steps (s : State) : State → Type 0 where
    here : Steps s s
    next : {s1 s2 : State} → Steps s s1 → Step s1 s2 → Steps s s2

  acquire-Fails :
      (token : String) (timeout wait : ℕ) (s : State) (r : Result Bool × State)
      → acquire redis name token timeout wait s ≡ some r
      → now r.1 < until
      → Held s
      → Fails s r
  unfolding acquire
  acquire-Fails token timeout wait s r e lt h =
      acquire_loop-Fails (suc (wait * 10)) token timeout (now s + wait * 1000000) s r e lt h

  compare_and_delete_other :
      (k t : String) (s : State)
      → get k s ≡ some owner
      → str_eq owner t ≡ false
      → compare_and_delete redis k t s ≡ (ok tt, s)
  unfolding compare_and_delete
  compare_and_delete_other k t s value differs = rw (value, differs) refl

  -- A release with another token compares and does nothing.
  release_other :
      (token : Option String) (s : State)
      → token ≢ some owner
      → Held s
      → release redis name token s ≡ s
  unfolding release
  release_other none s ne h = refl
  release_other (some t) s ne h = elim (Bool-cases (str_eq owner t)) [
    | inl same ↦ absurd (ne (ap some (sym ((eq_iff owner t).0 same))))
    | inr differs ↦
        ap (λ (r : Result (Unit {0}) × State). r.1)
          (compare_and_delete_other (lock_name name) t s h.token_set differs)
  ]

  compare_and_delete-later :
      (k token : String) (s : State) → now s ≤ now (compare_and_delete redis k token s).1
  unfolding compare_and_delete
  compare_and_delete-later k token s = elim (Bool-cases (is_token redis (get k s) token)) [
    | inl same ↦ rw same (redis.now-del k s)
    | inr differs ↦ rw differs (omega arith)
  ]

  release-later : (token : Option String) (s : State) → now s ≤ now (release redis name token s)
  unfolding release
  release-later none s = omega arith
  release-later (some t) s = compare_and_delete-later (lock_name name) t s

  Step-later : {s s' : State} → Step s s' → now s ≤ now s'
  unfolding acquire
  Step-later {s} {s'} (attempted token timeout wait r e) =
      acquire_loop-later (suc (wait * 10)) token timeout (now s + wait * 1000000) (r, s') s e
  Step-later {s} (released token ne e) = rw e (release-later token s)
  Step-later {s} (waited n e) = rw e (omega (arith, redis.now-sleep n s))

  Step-Held : {s s' : State} → Step s s' → now s' < until → Held s → Held s'
  Step-Held {s} {s'} (attempted token timeout wait r e) lt h =
      let f : Fails s (r, s') = acquire-Fails token timeout wait s (r, s') e lt h in f.still_held
  Step-Held {s} (released token ne e) lt h = subst Held (sym (e ∙ release_other token s ne h)) h
  Step-Held {s} {s'} (waited n e) lt h =
      let before : now (sleep n s) < expires (lock_name name) s =
        omega (arith, ap now e, h.expiry) in
      let (value, expiry) = redis.get-sleep n (lock_name name) owner s h.token_set before in
      subst Held (sym e) (record { token_set = value; expiry = expiry ∙ h.expiry })

  Steps-Held : {s s' : State} → Steps s s' → now s' < until → Held s → Held s'
  Steps-Held here lt h = h
  Steps-Held {s} {s'} (next {s1} steps step) lt h =
      Step-Held step lt (Steps-Held steps (omega (arith, Step-later step)) h)

  -- While a client holds the lock nobody else gets it: after any attempts of other clients, releases
  -- by clients with another token, and waiting, an attempt to acquire it that ends before it expires
  -- does not succeed, and the key still has the holder's token and its expiry.
  pub Held-excludes :
      {s s' : State} (r : Result Bool × State) (token : String) (timeout wait : ℕ)
      → Steps s s'
      → Held s
      → acquire redis name token timeout wait s' ≡ some r
      → now r.1 < until
      → Fails s' r
  Held-excludes {s} {s'} r token timeout wait steps h e lt =
      acquire-Fails token timeout wait s' r e lt
        (Steps-Held steps (omega (arith, Step-later (attempted token timeout wait r.0 e))) h)
