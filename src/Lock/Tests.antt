-- ===== src/Lock/Tests.antt =====
-- The lock on a store of one key, whose value has a time to live.
use py_faa_s.Prelude.{
  ℕ, ◌+◌, ◌*◌, ◌<◌, ◌≤◌, ltb, String, ◌≡◌, ◌≢◌, refl, Bool, true, false, Option, none, some, arith,
  if◌then◌else◌,
}
use py_faa_s.Models.{Result, ok}
use py_faa_s.Session.{Action}
use py_faa_s.Lock.{KeyStore, acquire, acquire_loop}
use py_faa_s.Lock.Held.{Fails, here, next, waited, Held-excludes}

-- The clock, and the value with its expiry.
pub record OneKey : Type 0 where
  pub time : ℕ
  pub value : String
  pub until : ℕ

abbrev live : OneKey → Option String
live s = if ltb s.time s.until then some s.value else none

abbrev set_if_free : String → ℕ → Action OneKey Bool
set_if_free v ttl s =
    if ltb s.time s.until
    then (ok false, s)
    else (ok true, record s { value = v; until = s.time + ttl * 1000000 })

get-sleep :
    (n : ℕ) (k v : String) (s : OneKey)
    → live s ≡ some v
    → s.time + n < s.until
    → (live (record s { time = s.time + n }) ≡ some v) × (s.until ≡ s.until)
get-sleep n k v s h lt = (ground (arith, h, lt), refl)

set_nx-taken :
    (k v w : String) (ttl : ℕ) (s : OneKey)
    → live s ≡ some v
    → (set_if_free w ttl s).1.time < s.until
    → ((set_if_free w ttl s).0 ≢ ok true)
      × (live (set_if_free w ttl s).1 ≡ some v)
      × ((set_if_free w ttl s).1.until ≡ s.until)
set_nx-taken k v w ttl s h lt = (λ e. ground arith, ground arith, ground arith)

set_nx-later : (w : String) (ttl : ℕ) (s : OneKey) → s.time ≤ (set_if_free w ttl s).1.time
set_nx-later w ttl s = ground arith

abbrev one_key : KeyStore
one_key = record {
  State = OneKey;
  now = λ s. s.time;
  sleep = λ n s. record s { time = s.time + n };
  get = λ k s. live s;
  expires = λ k s. s.until;
  set_nx = λ k v ttl. set_if_free v ttl;
  del = λ k s. (ok tt, record s { until = 0 });
  now-sleep = λ n s. omega arith;
  now-set_nx = λ k v ttl s. set_nx-later v ttl s;
  now-del = λ k s. omega arith;
  get-sleep = get-sleep;
  set_nx-taken = set_nx-taken;
}

-- Client a holds the lock for sixty seconds; five seconds later client b tries for one second.
abbrev taken : OneKey
taken = record { time = 0; value = "a"; until = 60000000 }

abbrev given_up : Result Bool × OneKey
given_up = (ok false, record taken { time = 6000000 })

waits_in_vain : acquire one_key "tick" "b" 60 1 (record taken { time = 5000000 }) ≡ some given_up
unfolding acquire acquire_loop
waits_in_vain = refl

Held-excludes_example : Fails one_key "tick" "a" 60000000 (record taken { time = 5000000 }) given_up
Held-excludes_example =
    Held-excludes one_key "tick" "a" 60000000 {s = taken} given_up "b" 60 1
      (next here (waited 5000000 refl)) (record { token_set = refl; expiry = refl }) waits_in_vain
      (omega arith)
