-- ===== src/Worker/Poll.antt =====
-- `_poll_once` of worker/worker.py: one job from the queue to its acknowledgement. The metric of the
-- queue's depth is left out.
use py_faa_s.Prelude.{
  ℕ, String, eq_iff, Bool, ◌||◌, ◌<◌, ◌≡◌, refl, ap, true, Option, none, some, is_some, arith,
}
use py_faa_s.Prelude.Int.{ℤ}
use py_faa_s.Models.{Error, Result, ok, err}
use py_faa_s.Session.{Database}
use py_faa_s.Queue.{SortedSets, Codec, queue_name, processing_set, dequeue_job, ack_job, has_id}
use py_faa_s.Queue.Dequeue.{
  waits, in_flight, Discards, Dequeues, drained, takes, gives_up, dequeue_job-Dequeues,
  popped-conserves, taken_waited, taken_left, taken_arrived,
}
use py_faa_s.Queue.Jobs.{score-ack_job}
use py_faa_s.Worker.{Run, process_job}

module _ (redis : SortedSets) {P : Type 0} (json : Codec P) (worker_id : String) (run : Run) where
  open redis use {State, score, zadd, bzpopmin}
  open json use {loads}

  abbrev pub Polled : Type 0
  Polled = Result (Unit {0}) × State × Database

  -- A job is acknowledged only if its processing returns.
  abbrev pub acknowledged : ℕ → State → Result (Unit {0}) × Database → Polled
  acknowledged id s (err exc, db) = (err exc, s, db)
  acknowledged id s (ok _, db) = let (r, s') = ack_job redis json id s in (r, s', db)

  abbrev pub processed : Database → Result (Option (ℕ × P)) × State → Polled
  processed db (err exc, s) = (err exc, s, db)
  processed db (ok none, s) = (ok tt, s, db)
  processed db (ok (some job), s) = acknowledged job.0 s (process_job worker_id run job.0 db)

  unfoldable pub poll_once : State → Database → Polled
  poll_once s db = processed db (dequeue_job redis json s)

  -- How a poll ends.
  pub data Polls (s : State) (db : Database) : Polled → Type 0 where
    idle :
        (n : ℕ) (s' : State)
        → n < 3
        → Discards redis json s n s'
        → (bzpopmin queue_name s').0 ≡ none
        → Polls s db (ok tt, s', db)
    unreadable :
        (exc : Error) (s' : State) → Discards redis json s 3 s' → Polls s db (err exc, s', db)
    done :
        (m : String) (job : ℕ × P) (s' : State) (db' : Database)
        → loads m ≡ some job
        → is_some (score s queue_name m) ≡ true
        → process_job worker_id run job.0 db ≡ (ok tt, db')
        → score s' queue_name m ≡ none
        → score s' processing_set m ≡ none
        → Polls s db (ok tt, s', db')
    left :
        (m : String) (job : ℕ × P) (exc : Error) (s' : State) (db' : Database)
        → loads m ≡ some job
        → is_some (score s queue_name m) ≡ true
        → process_job worker_id run job.0 db ≡ (err exc, db')
        → score s' queue_name m ≡ none
        → is_some (score s' processing_set m) ≡ true
        → Polls s db (err exc, s', db')

  abbrev pub held : State → String → Bool
  held s n = waits redis json s n || in_flight redis json s n

  -- No two members of the queue and of the processing set are jobs with one id.
  abbrev pub OneText : State → Type 0
  OneText s =
      (id : ℕ) (n m : String)
      → held s n ≡ true
      → held s m ≡ true
      → has_id id (loads n) ≡ true
      → has_id id (loads m) ≡ true
      → n ≡ m

  module _ (s : State) (db : Database) (alone : OneText s) (mid : State) (k : ℕ) (m : String)
      (v : ℤ) (job : ℕ × P) (before : Discards redis json s k mid)
      (popped : (bzpopmin queue_name mid).0 ≡ some (m, v)) (good : loads m ≡ some job) where
    abbrev taken : State
    taken = zadd processing_set m v (bzpopmin queue_name mid).1

    gone : score taken queue_name m ≡ none
    gone = taken_left redis json s mid k m v job before popped good

    flying : in_flight redis json taken m ≡ true
    flying = ap is_some (taken_arrived redis json s mid k m v job before popped good)

    waited : is_some (score s queue_name m) ≡ true
    waited = ap is_some (taken_waited redis json s mid k m v job before popped good)

    own : has_id job.0 (loads m) ≡ true
    own = rw good (ground arith)

    only :
        (n : String) → in_flight redis json taken n ≡ true → has_id job.0 (loads n) ≡ true → n ≡ m
    only n there same =
        alone job.0 n m
          (ground (arith, popped-conserves redis json s mid k n m v before popped, there))
          (ground (arith, waited)) same own

    ran :
        (r : Result (Unit {0}) × Database)
        → process_job worker_id run job.0 db ≡ r
        → Polls s db (acknowledged job.0 taken r)
    ran (err exc, db') h = left m job exc taken db' good waited h gone flying
    ran (ok _, db') h =
        let (returns, scores) = score-ack_job redis json taken job.0 m only own flying in
        rw returns (
          done m job (ack_job redis json job.0 taken).1 db' good waited h
            (ground (arith, scores queue_name m, gone))
            (ground (arith, scores processing_set m, eq_iff m m)))

  -- Where no two members of the queue and of the processing set are jobs with one id, a poll ends in
  -- one of four ways. It moves fewer than three texts that are no jobs to the processing set, finds
  -- the queue empty and returns; or it moves three and raises; in both the database stays as it was.
  -- Or a waiting job has left the queue: it is gone from both sets if its processing
  -- returns; if that raises, the poll raises, and the job stays in the processing set.
  pub poll_once-Polls : (s : State) (db : Database) → OneText s → Polls s db (poll_once s db)
  unfolding poll_once
  poll_once-Polls s db alone = polled (dequeue_job redis json s) (dequeue_job-Dequeues redis json s)
    where
      polled :
          (r : Result (Option (ℕ × P)) × State)
          → Dequeues redis json s r
          → Polls s db (processed db r)
      polled r (drained n s' few before e) = idle n s' few before e
      polled r (gives_up exc s' before) = unreadable exc s' before
      polled r (takes k mid m v job few before popped good) =
          ran s db alone mid k m v job before popped good (process_job worker_id run job.0 db) refl
