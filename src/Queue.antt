-- ===== src/Queue.antt =====
-- shared/queue/redis_client.py: the job queue on two sorted sets.
-- The Redis server is a parameter: its commands with what their documentation promises. A job is its
-- id with the rest of its payload, and travels as the text that `json.dumps` makes of it.
-- A score is in microseconds. A command of the server does not raise, so what `redis_retry` repeats is a
-- dequeue that has popped a text which is no job. The connection pool and the waiting are not modelled.
pub mod Dequeue
pub mod Jobs
mod Tests
use py_faa_s.Prelude.{
  ℕ, zero, suc, ◌*◌, String, str_append, str_eq, ◌==◌, ◌&&◌, ◌≡◌, Bool, true, false, Option, none,
  some, List, [], ◌∷◌, if◌then◌else◌, is_some, str_mem,
}
use py_faa_s.Prelude.Int.{ℤ, pos, ◌-ℤ◌, ◌≤ℤ◌}
use py_faa_s.Models.{Detail, text, Error, value_error, Result, ok, err}
use py_faa_s.Session.{Action}

abbrev pub queue_name : String
queue_name = "sopm:queue"

abbrev pub processing_set : String
processing_set = "sopm:processing"

-- The sorted-set commands. `score s k m` is the score of member `m` of the set at key `k`.
pub record SortedSets : Type 1 where
  pub State : Type 0
  pub score : State → String → String → Option ℤ
  pub zadd : String → String → ℤ → State → State
  pub zrem : String → String → State → State
  pub bzpopmin : String → State → Option (String × ℤ) × State
  pub zscan : String → State → List String
  pub score-zadd :
      (s : State) (k m : String) (v : ℤ) (j n : String)
      → score (zadd k m v s) j n ≡ (if str_eq k j && str_eq m n then some v else score s j n)
  pub score-zrem :
      (s : State) (k m j n : String)
      → score (zrem k m s) j n ≡ (if str_eq k j && str_eq m n then none else score s j n)
  -- A timeout: the set was empty, and nothing has changed.
  pub bzpopmin-idle : (s : State) (k : String) → (bzpopmin k s).0 ≡ none → (bzpopmin k s).1 ≡ s
  pub bzpopmin-none : (s : State) (k n : String) → (bzpopmin k s).0 ≡ none → score s k n ≡ none
  -- The member with the least score is removed and returned.
  pub bzpopmin-score :
      (s : State) (k m : String) (v : ℤ) → (bzpopmin k s).0 ≡ some (m, v) → score s k m ≡ some v
  pub bzpopmin-least :
      (s : State) (k m n : String) (v w : ℤ)
      → (bzpopmin k s).0 ≡ some (m, v)
      → score s k n ≡ some w
      → v ≤ℤ w
  pub score-bzpopmin :
      (s : State) (k m : String) (v : ℤ) (j n : String)
      → (bzpopmin k s).0 ≡ some (m, v)
      → score (bzpopmin k s).1 j n ≡ (if str_eq k j && str_eq m n then none else score s j n)
  -- A full scan returns the members of the set and no others.
  pub zscan-score : (s : State) (k m : String) → str_mem m (zscan k s) ≡ is_some (score s k m)

-- `json.dumps` and `json.loads` on jobs.
pub record Codec (P : Type 0) : Type 0 where
  pub dumps : ℕ × P → String
  pub loads : String → Option (ℕ × P)
  pub loads-dumps : (j : ℕ × P) → loads (dumps j) ≡ some j

-- `redis_retry`: three attempts, and the error of the last.
unfoldable pub retry_upto : {S A : Type 0} → ℕ → Action S A → Action S A
retry_upto zero m s = m s
retry_upto (suc n) m s =
    let (r, s') = m s in elim r [ ok a ↦ (ok a, s') | err _ ↦ retry_upto n m s' ]

abbrev pub redis_retry : {S A : Type 0} → Action S A → Action S A
redis_retry = retry_upto 2

module _ {P : Type 0} where
  abbrev pub parsed : Option (ℕ × P) → Result (Option (ℕ × P))
  parsed none = err (value_error (text "JSONDecodeError"))
  parsed (some j) = ok (some j)

  -- `data.get("job_id") == job_id`; a text that does not parse is passed over.
  abbrev pub has_id : ℕ → Option (ℕ × P) → Bool
  has_id job_id none = false
  has_id job_id (some (i, payload)) = i == job_id

module _ (redis : SortedSets) {P : Type 0} (json : Codec P) where
  open redis use {State, zadd, zrem, bzpopmin, zscan}

  -- `now` is `time.time()`, in microseconds.
  unfoldable pub enqueue_job : ℕ → P → ℕ → ℕ → Action State (Unit {0})
  unfolding retry_upto
  enqueue_job job_id payload priority now = redis_retry λ s. (
    ok tt,
    zadd queue_name (json.dumps (job_id, payload)) (pos now -ℤ pos (priority * 1000000 * 1000000))
        s,
  )

  -- One attempt of `dequeue_job`: a popped text that is no job raises after it was moved.
  unfoldable pub dequeue_once : Action State (Option (ℕ × P))
  dequeue_once s =
      let (popped, s') = bzpopmin queue_name s in
      elim popped [
        | none ↦ (ok none, s')
        | some (job, score) ↦ (parsed (json.loads job), zadd processing_set job score s')
      ]

  unfoldable pub dequeue_job : Action State (Option (ℕ × P))
  unfolding dequeue_once retry_upto
  dequeue_job = redis_retry dequeue_once

  -- The inner loop of `ack_job`: the first member of the scan with this id is removed.
  unfoldable pub ack_scan : ℕ → List String → State → State
  ack_scan job_id [] s = s
  ack_scan job_id (member ∷ members) s =
      let rest = ack_scan job_id members s in
      if has_id job_id (json.loads member) then zrem processing_set member s else rest

  unfoldable pub ack_job : ℕ → Action State (Unit {0})
  unfolding ack_scan retry_upto
  ack_job job_id = redis_retry λ s. (ok tt, ack_scan job_id (zscan processing_set s) s)
