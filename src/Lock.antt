-- ===== src/Lock.antt =====
-- `DistributedLock` of shared/queue/redis_client.py: a key that is set if it is absent, with an expiry,
-- and deleted by a script that compares the token. The loop of `acquire` runs on fuel: `none` means
-- that the fuel ran out. The Redis server and the clock are a parameter; times are microseconds.
pub mod Waiting
pub mod Held
mod Tests
use py_faa_s.Prelude.{
  ℕ, zero, suc, ◌+◌, ◌*◌, ◌<◌, ◌≤◌, ltb, String, str_append, str_eq, ◌≡◌, ◌≢◌, Bool, true, false,
  Option, none, some, if◌then◌else◌,
}
use py_faa_s.Models.{Error, Result, ok, err}
use py_faa_s.Session.{Action, pure, ◌>>=◌, caught}

-- `SET key value NX EX seconds`, `GET` and `DEL`. `expires s k` is when the value at `k` goes.
pub record KeyStore : Type 1 where
  pub State : Type 0
  pub now : State → ℕ
  pub sleep : ℕ → State → State
  pub get : String → State → Option String
  pub expires : String → State → ℕ
  pub set_nx : String → String → ℕ → Action State Bool
  pub del : String → Action State (Unit {0})
  pub now-sleep : (n : ℕ) (s : State) → now s + n ≤ now (sleep n s)
  pub now-set_nx : (k v : String) (ttl : ℕ) (s : State) → now s ≤ now (set_nx k v ttl s).1
  pub now-del : (k : String) (s : State) → now s ≤ now (del k s).1
  -- A value stays until it expires, also while another client sleeps.
  pub get-sleep :
      (n : ℕ) (k v : String) (s : State)
      → get k s ≡ some v
      → now (sleep n s) < expires k s
      → (get k (sleep n s) ≡ some v) × (expires k (sleep n s) ≡ expires k s)
  -- NX: a key that has a value is not set, and the command says so.
  pub set_nx-taken :
      (k v w : String) (ttl : ℕ) (s : State)
      → get k s ≡ some v
      → now (set_nx k w ttl s).1 < expires k s
      → ((set_nx k w ttl s).0 ≢ ok true)
        × (get k (set_nx k w ttl s).1 ≡ some v)
        × (expires k (set_nx k w ttl s).1 ≡ expires k s)

abbrev pub lock_name : String → String
lock_name name = str_append "sopm:lock:" name

module _ (redis : KeyStore) where
  open redis use {State, now, sleep, get, set_nx, del}

  abbrev pub Attempts : Type 0
  Attempts = Option (Result Bool × State)

  abbrev pub after_try : (State → Attempts) → Result Bool × State → Attempts
  after_try again (err exc, s) = some (err exc, s)
  after_try again (ok true, s) = some (ok true, s)
  after_try again (ok false, s) = again (sleep 100000 s)

  -- The loop of `acquire`.
  unfoldable pub acquire_loop : ℕ → String → String → ℕ → ℕ → State → Attempts
  acquire_loop zero name token timeout deadline s = none
  acquire_loop (suc fuel) name token timeout deadline s =
      let tried =
        after_try (acquire_loop fuel name token timeout deadline) (set_nx name token timeout s) in
      if ltb (now s) deadline then tried else some (ok false, s)

  -- `acquire` with the fresh `token`; `wait` is in seconds.
  unfoldable pub acquire : String → String → ℕ → ℕ → State → Attempts
  unfolding acquire_loop
  acquire name token timeout wait s =
      acquire_loop (suc (wait * 10)) (lock_name name) token timeout (now s + wait * 1000000) s

  abbrev pub is_token : Option String → String → Bool
  is_token none token = false
  is_token (some v) token = str_eq v token

  -- The Lua script.
  unfoldable pub compare_and_delete : String → String → Action State (Unit {0})
  compare_and_delete name token s = if is_token (get name s) token then del name s else (ok tt, s)

  -- `suppress(RedisError)`: the client's exceptions are dropped.
  unfoldable pub release : String → Option String → State → State
  release name none s = s
  release name (some token) s = (compare_and_delete (lock_name name) token s).1
