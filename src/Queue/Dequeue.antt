-- ===== src/Queue/Dequeue.antt =====
-- How `dequeue_job` ends, its attempts included, and where it leaves the members of the two sets.
use mathlib.Core.Path.{subst}
use py_faa_s.Prelude.{
  ℕ, zero, suc, ◌+◌, ◌<◌, String, eq_iff, ◌≡◌, refl, sym, ap, ◌∙◌, inl, inr, Bool, ◌||◌, Option,
  none, some, arith, is_some, Option-cases,
}
use py_faa_s.Prelude.Int.{ℤ}
use py_faa_s.Session.{Action}
use py_faa_s.Models.{ok, err, Error, Result}
use py_faa_s.Queue.{
  SortedSets, Codec, queue_name, processing_set, dequeue_job, dequeue_once, retry_upto, parsed,
}

module _ {S A : Type 0} (k : ℕ) (m : Action S A) (s : S) where
  retried_ok : (a : A) (s' : S) → m s ≡ (ok a, s') → retry_upto (suc k) m s ≡ (ok a, s')
  unfolding retry_upto
  retried_ok a s' h = ground (arith, h)

  retried_err :
      (exc : Error) (s' : S) → m s ≡ (err exc, s') → retry_upto (suc k) m s ≡ retry_upto k m s'
  unfolding retry_upto
  retried_err exc s' h = ground (arith, h)

module _ (redis : SortedSets) {P : Type 0} (json : Codec P) where
  open redis use {
    State, score, zadd, zrem, bzpopmin, zscan, score-zadd, score-zrem, bzpopmin-none, bzpopmin-idle,
    bzpopmin-score, bzpopmin-least, score-bzpopmin, zscan-score,
  }
  open json use {dumps, loads, loads-dumps}

  abbrev pub waits : State → String → Bool
  waits s n = is_some (score s queue_name n)

  abbrev pub in_flight : State → String → Bool
  in_flight s n = is_some (score s processing_set n)

  -- `n` texts that are no jobs have been popped, each the least of its queue, and moved.
  pub data Discards (s : State) : ℕ → State → Type 0 where
    none_yet : Discards s 0 s
    one_more :
        {n : ℕ} {mid : State} (m : String) (v : ℤ)
        → Discards s n mid
        → (bzpopmin queue_name mid).0 ≡ some (m, v)
        → loads m ≡ none
        → Discards s (suc n) (zadd processing_set m v (bzpopmin queue_name mid).1)

  -- How a dequeue ends: with an empty queue or a job, after fewer than three texts that are no jobs,
  -- or by the exception of the third such text.
  pub data Dequeues (s : State) : Result (Option (ℕ × P)) × State → Type 0 where
    drained :
        (n : ℕ) (s' : State)
        → n < 3
        → Discards s n s'
        → (bzpopmin queue_name s').0 ≡ none
        → Dequeues s (ok none, s')
    takes :
        (n : ℕ) (mid : State) (m : String) (v : ℤ) (j : ℕ × P)
        → n < 3
        → Discards s n mid
        → (bzpopmin queue_name mid).0 ≡ some (m, v)
        → loads m ≡ some j
        → Dequeues s (ok (some j), zadd processing_set m v (bzpopmin queue_name mid).1)
    gives_up : (exc : Error) (s' : State) → Discards s 3 s' → Dequeues s (err exc, s')

  once_popped :
      (s : State) (m : String) (v : ℤ)
      → (bzpopmin queue_name s).0 ≡ some (m, v)
      → dequeue_once redis json s
        ≡ (parsed (loads m), zadd processing_set m v (bzpopmin queue_name s).1)
  unfolding dequeue_once
  once_popped s m v h = ground arith

  once_idle :
      (s : State) → (bzpopmin queue_name s).0 ≡ none → dequeue_once redis json s ≡ (ok none, s)
  unfolding dequeue_once
  once_idle s h = ground (arith, bzpopmin-idle s queue_name h)

  -- With `k` attempts left after this one.
  retry_upto-Dequeues :
      (k n : ℕ) (s s' : State)
      → Discards s n s'
      → n + k ≡ 2
      → Dequeues s (retry_upto k (dequeue_once redis json) s')
  unfolding retry_upto
  retry_upto-Dequeues zero n s s' so_far e = elim (Option-cases (bzpopmin queue_name s').0) [
    | inl idle ↦ rw (once_idle s' idle) (drained n s' (omega (arith, e)) so_far idle)
    | inr ((m, v), popped) ↦ elim (Option-cases (loads m)) [
      | inl bad ↦
          let third : Discards s 3 (zadd processing_set m v (bzpopmin queue_name s').1) =
            subst (λ (i : ℕ). Discards s i (zadd processing_set m v (bzpopmin queue_name s').1))
              (omega (arith, e)) (one_more m v so_far popped bad) in
          rw (once_popped s' m v popped, bad) (gives_up _ _ third)
      | inr (j, good) ↦
          rw (once_popped s' m v popped, good)
            (takes n s' m v j (omega (arith, e)) so_far popped good)
    ]
  ]
  retry_upto-Dequeues (suc k) n s s' so_far e = elim (Option-cases (bzpopmin queue_name s').0) [
    | inl idle ↦
        rw (retried_ok k _ s' none s' (once_idle s' idle))
          (drained n s' (omega (arith, e)) so_far idle)
    | inr ((m, v), popped) ↦ elim (Option-cases (loads m)) [
      | inl bad ↦
          rw (retried_err k _ s' _ _ (rw bad at (once_popped s' m v popped)))
            (retry_upto-Dequeues k (suc n) s _ (one_more m v so_far popped bad) (omega (arith, e)))
      | inr (j, good) ↦
          rw (retried_ok k _ s' _ _ (rw good at (once_popped s' m v popped)))
            (takes n s' m v j (omega (arith, e)) so_far popped good)
    ]
  ]

  pub dequeue_job-Dequeues : (s : State) → Dequeues s (dequeue_job redis json s)
  unfolding dequeue_job
  dequeue_job-Dequeues s = retry_upto-Dequeues 2 0 s s none_yet refl

  -- A job at the head of the queue is taken at the first attempt.
  pub dequeue_head :
      (s : State) (m : String) (v : ℤ) (j : ℕ × P)
      → (bzpopmin queue_name s).0 ≡ some (m, v)
      → loads m ≡ some j
      → (dequeue_job redis json s).0 ≡ ok (some j)
  unfolding dequeue_job
  dequeue_head s m v j popped good =
      ap (λ r. r.0)
        (retried_ok 1 (dequeue_once redis json) s (some j) _
          (rw good at (once_popped s m v popped)))

  module _ (s : State) (n : String) where
    popped_conserves :
        (m : String) (v : ℤ)
        → (bzpopmin queue_name s).0 ≡ some (m, v)
        → let after = zadd processing_set m v (bzpopmin queue_name s).1 in
          (waits after n || in_flight after n) ≡ (waits s n || in_flight s n)
    popped_conserves m v h = ground (
      arith,
      score-zadd (bzpopmin queue_name s).1 processing_set m v queue_name n,
      score-zadd (bzpopmin queue_name s).1 processing_set m v processing_set n,
      score-bzpopmin s queue_name m v queue_name n h,
      score-bzpopmin s queue_name m v processing_set n h,
      bzpopmin-score s queue_name m v h,
      eq_iff m n,
    )

  pub Discards-conserves :
      (s s' : State) (k : ℕ) (n : String)
      → Discards s k s'
      → (waits s' n || in_flight s' n) ≡ (waits s n || in_flight s n)
  Discards-conserves s _ _ n none_yet = refl
  Discards-conserves s _ _ n (one_more {mid = mid} m v before popped bad) =
      popped_conserves mid n m v popped ∙ Discards-conserves s mid _ n before

  pub popped-conserves :
      (s mid : State) (k : ℕ) (n m : String) (v : ℤ)
      → Discards s k mid
      → (bzpopmin queue_name mid).0 ≡ some (m, v)
      → let after = zadd processing_set m v (bzpopmin queue_name mid).1 in
        (waits after n || in_flight after n) ≡ (waits s n || in_flight s n)
  popped-conserves s mid k n m v before popped =
      popped_conserves mid n m v popped ∙ Discards-conserves s mid k n before

  -- A job stays where it is while texts that are no jobs are discarded.
  pub Discards-keeps :
      (s s' : State) (k : ℕ) (key n : String) (j : ℕ × P)
      → Discards s k s'
      → loads n ≡ some j
      → score s' key n ≡ score s key n
  Discards-keeps s _ _ key n j none_yet good = refl
  Discards-keeps s _ _ key n j (one_more {mid = mid} m v before popped bad) good = ground (
    arith,
    score-zadd (bzpopmin queue_name mid).1 processing_set m v key n,
    score-bzpopmin mid queue_name m v key n popped,
    Discards-keeps s mid _ key n j before good,
    eq_iff m n,
    bad,
    good,
  )

  module _ (s mid : State) (k : ℕ) (m : String) (v : ℤ) (j : ℕ × P) (before : Discards s k mid)
      (popped : (bzpopmin queue_name mid).0 ≡ some (m, v)) (good : loads m ≡ some j) where
    abbrev after : State
    after = zadd processing_set m v (bzpopmin queue_name mid).1

    pub taken_waited : score s queue_name m ≡ some v
    taken_waited =
        sym (Discards-keeps s mid k queue_name m j before good)
        ∙ bzpopmin-score mid queue_name m v popped

    pub taken_left : score after queue_name m ≡ none
    taken_left = ground (
      arith,
      score-zadd (bzpopmin queue_name mid).1 processing_set m v queue_name m,
      score-bzpopmin mid queue_name m v queue_name m popped,
      eq_iff m m,
    )

    pub taken_arrived : score after processing_set m ≡ some v
    taken_arrived = ground (
      arith,
      score-zadd (bzpopmin queue_name mid).1 processing_set m v processing_set m,
      eq_iff m m,
    )
