-- ===== src/Queue/Jobs.antt =====
-- The queue: nothing is lost between the two sets, the least score goes first, and an
-- acknowledgement removes its own job.
use py_faa_s.Prelude.{
  ℕ, ◌+◌, ◌*◌, ◌<◌, String, str_eq, eq_iff, ◌≡◌, ◌≢◌, refl, sym, ap, ◌∙◌, inl, inr, true, ◌||◌,
  ◌&&◌, Option, none, some, List, [], ◌∷◌, arith, str_mem, if◌then◌else◌, Option-cases, Bool-cases,
}
use py_faa_s.Prelude.Int.{ℤ, pos, ◌-ℤ◌, ◌≤ℤ◌, int_laws}
use py_faa_s.Models.{ok, Result}
use py_faa_s.Queue.{
  SortedSets, Codec, queue_name, processing_set, enqueue_job, dequeue_job, retry_upto, ack_scan,
  ack_job, has_id,
}
use py_faa_s.Queue.Dequeue.{
  waits, in_flight, Dequeues, drained, takes, gives_up, dequeue_job-Dequeues, dequeue_head,
  Discards-conserves, popped-conserves, Discards-keeps, taken_waited, taken_left, taken_arrived,
}

module _ (redis : SortedSets) {P : Type 0} (json : Codec P) where
  open redis use {
    State, score, zadd, zrem, bzpopmin, zscan, score-zadd, score-zrem, bzpopmin-none, bzpopmin-idle,
    bzpopmin-score, bzpopmin-least, score-bzpopmin, zscan-score,
  }
  open json use {dumps, loads, loads-dumps}

  -- A dequeue, whether it returns a job, times out or raises, keeps every member in one of the two
  -- sets, and adds none, however many texts that are no jobs it pops on the way.
  pub dequeue_conserves :
      (s : State) (n : String)
      → let after = (dequeue_job redis json s).1 in
        (waits redis json after n || in_flight redis json after n)
        ≡ (waits redis json s n || in_flight redis json s n)
  dequeue_conserves s n = cases (dequeue_job redis json s) (dequeue_job-Dequeues redis json s)
    where
      cases :
          (r : Result (Option (ℕ × P)) × State)
          → Dequeues redis json s r
          → (waits redis json r.1 n || in_flight redis json r.1 n)
            ≡ (waits redis json s n || in_flight redis json s n)
      cases r (drained k s' few before idle) = Discards-conserves redis json s s' k n before
      cases r (takes k mid m v j few before popped good) =
          popped-conserves redis json s mid k n m v before popped
      cases r (gives_up exc s' before) = Discards-conserves redis json s s' 3 n before

  -- A job that a dequeue returns was waiting and has moved to the processing set with its score, and
  -- none of the jobs that waited with it has a lesser score. Texts that are no jobs may have had.
  pub dequeue_least :
      (s : State) (j i : ℕ × P) (n : String) (w : ℤ)
      → (dequeue_job redis json s).0 ≡ ok (some j)
      → score s queue_name n ≡ some w
      → loads n ≡ some i
      → (m : String) × (v : ℤ) × (loads m ≡ some j)
        × (score s queue_name m ≡ some v)
        × (v ≤ℤ w)
        × (score (dequeue_job redis json s).1 queue_name m ≡ none)
        × (score (dequeue_job redis json s).1 processing_set m ≡ some v)
  dequeue_least s j i n w h waiting readable =
      cases (dequeue_job redis json s) (dequeue_job-Dequeues redis json s) h
    where
      cases :
          (r : Result (Option (ℕ × P)) × State)
          → Dequeues redis json s r
          → r.0 ≡ ok (some j)
          → (m : String) × (v : ℤ) × (loads m ≡ some j)
            × (score s queue_name m ≡ some v)
            × (v ≤ℤ w)
            × (score r.1 queue_name m ≡ none)
            × (score r.1 processing_set m ≡ some v)
      cases r (drained k s' few before idle) e = absurd (ground (arith, e))
      cases r (gives_up exc s' before) e = absurd (ground (arith, e))
      cases r (takes k mid m v j' few before popped good) e =
          let same : loads m ≡ some j = ground (arith, e, good) in
          (
            m,
            v,
            same,
            taken_waited redis json s mid k m v j before popped same,
            bzpopmin-least mid queue_name m n v w popped
                (Discards-keeps redis json s mid k queue_name n i before readable ∙ waiting),
            taken_left redis json s mid k m v j before popped same,
            taken_arrived redis json s mid k m v j before popped same,
          )

  abbrev pub score_of : ℕ → ℕ → ℤ
  score_of priority now = pos now -ℤ pos (priority * 1000000 * 1000000)

  dumps-ne : (a b : ℕ × P) → a.0 ≢ b.0 → dumps a ≢ dumps b
  dumps-ne a b h e = h (loaded-eq (sym (loads-dumps a) ∙ ap loads e ∙ loads-dumps b))
    where
      loaded-eq : some a ≡ some b → a.0 ≡ b.0
      loaded-eq e = cc

  module _ (s : State) (a b : ℕ × P) (pa pb ta tb : ℕ) where
    abbrev both : State
    both = zadd queue_name (dumps b) (score_of pb tb) (zadd queue_name (dumps a) (score_of pa ta) s)

    score-both :
        ((n : String) → score s queue_name n ≡ none)
        → a.0 ≢ b.0
        → (n : String)
        → score both queue_name n ≡ (
            if str_eq (dumps b) n
            then some (score_of pb tb)
            else if str_eq (dumps a) n
            then some (score_of pa ta)
            else none)
    score-both empty ne n = ground (
      arith,
      score-zadd (zadd queue_name (dumps a) (score_of pa ta) s) queue_name (dumps b)
          (score_of pb tb) queue_name n,
      score-zadd s queue_name (dumps a) (score_of pa ta) queue_name n,
      empty n,
    )

    -- The score of the job that is to go first is less.
    score_of_lt :
        ta + pb * 1000000 * 1000000 < tb + pa * 1000000 * 1000000
        → ¬ (score_of pb tb ≤ℤ score_of pa ta)
    score_of_lt lt h = omega int_laws

    only_a :
        ((n : String) → score s queue_name n ≡ none)
        → a.0 ≢ b.0
        → ta + pb * 1000000 * 1000000 < tb + pa * 1000000 * 1000000
        → (m : String) (v : ℤ) → (bzpopmin queue_name both).0 ≡ some (m, v)
        → m ≡ dumps a
    only_a empty ne lt m v h = ground (
      arith,
      score-both empty ne m,
      score-both empty ne (dumps a),
      bzpopmin-score both queue_name m v h,
      bzpopmin-least both queue_name m (dumps a) v (score_of pa ta) h,
      score_of_lt lt,
      dumps-ne a b ne,
      eq_iff (dumps b) m,
      eq_iff (dumps a) m,
      eq_iff (dumps b) (dumps a),
      eq_iff (dumps a) (dumps a),
    )

    a_waits :
        ((n : String) → score s queue_name n ≡ none)
        → a.0 ≢ b.0
        → (bzpopmin queue_name both).0 ≢ none
    a_waits empty ne idle = ground (
      arith,
      score-both empty ne (dumps a),
      bzpopmin-none both queue_name (dumps a) idle,
      eq_iff (dumps a) (dumps a),
    )

    -- Of two jobs that are enqueued one after the other into an empty queue the first leaves first,
    -- if it has at least the priority of the second and was enqueued at an earlier time; more
    -- exactly, if its time, less a million seconds for each step of its priority, is earlier.
    pub dequeue-enqueue-enqueue :
        ((n : String) → score s queue_name n ≡ none)
        → a.0 ≢ b.0
        → ta + pb * 1000000 * 1000000 < tb + pa * 1000000 * 1000000
        → (dequeue_job redis json
            (enqueue_job redis json b.0 b.1 pb tb (enqueue_job redis json a.0 a.1 pa ta s).1).1).0
          ≡ ok (some a)
    unfolding enqueue_job retry_upto
    dequeue-enqueue-enqueue empty ne lt = elim (Option-cases (bzpopmin queue_name both).0) [
      | inl idle ↦ absurd (a_waits empty ne idle)
      | inr ((m, v), popped) ↦
          dequeue_head redis json both m v a popped
            (rw (only_a empty ne lt m v popped) (loads-dumps a))
    ]

  -- With one member for the id, the scan of `ack_job` removes that member.
  ack_scan-zrem :
      (s : State) (id : ℕ) (m : String) (members : List String)
      → ((n : String) → str_mem n members ≡ true → has_id id (loads n) ≡ true → n ≡ m)
      → has_id id (loads m) ≡ true
      → str_mem m members ≡ true
      → ack_scan redis json id members s ≡ zrem processing_set m s
  unfolding ack_scan
  ack_scan-zrem s id m [] alone own h = cc
  ack_scan-zrem s id m (x ∷ xs) alone own h = elim (Bool-cases (has_id id (loads x))) [
    | inl mine ↦ rw (mine, alone x (ground (arith, eq_iff x x)) mine)
    | inr other ↦ rw other (
        ack_scan-zrem s id m xs (λ n there. alone n (ground (arith, there))) own
          (ground (arith, eq_iff m x, own, other)))
  ]

  -- `ack_job` returns; it takes the member of its job out of the processing set, if that is the one
  -- member of the set that parses with the id, and changes no other member of any set.
  pub score-ack_job :
      (s : State) (id : ℕ) (m : String)
      → ((n : String) → in_flight redis json s n ≡ true → has_id id (loads n) ≡ true → n ≡ m)
      → has_id id (loads m) ≡ true
      → in_flight redis json s m ≡ true
      → ((ack_job redis json id s).0 ≡ ok tt)
        × ((k n : String)
            → score (ack_job redis json id s).1 k n
              ≡ (if str_eq processing_set k && str_eq m n then none else score s k n))
  unfolding ack_job retry_upto
  score-ack_job s id m alone own flying = (
    refl,
    λ k n.
        rw
          (ack_scan-zrem s id m (zscan processing_set s)
            (λ x there. alone x (sym (zscan-score s processing_set x) ∙ there)) own
            (zscan-score s processing_set m ∙ flying))
          (score-zrem s processing_set m k n),
  )
