-- ===== src/Queue/Tests.antt =====
-- Sorted sets in memory and a codec, which meet what is assumed of the Redis server and of `json`,
-- and the queue at work on them.
use py_faa_s.Prelude.{
  ℕ, zero, suc, String, str_eq, eq_iff, ◌≡◌, ◌∙◌, ◌≢◌, refl, Bool, true, false, Bool-cases, ◌||◌,
  ◌&&◌, Option, none, some, List, [], ◌∷◌, arith, is_some, str_mem, if◌then◌else◌, Option-cases,
  inl, inr, ◌==◌, sym, ◌⊎◌,
}
use py_faa_s.Prelude.Int.{ℤ, pos, ◌-ℤ◌, ◌≤ℤ◌, ltb_ℤ}
use Prim.Native.Char.{Char, code}
use text.Mathlib.TextEquality.{Char-path}
use mathlib.Core.Option
use mathlib.Core.Option.{some_inj}
use py_faa_s.Models.{ok, err, Result}
use py_faa_s.Session.Samples.{db}
use py_faa_s.Worker.{Run, wait_timed_out}
use py_faa_s.Worker.Poll.{Polls, OneText, held, poll_once, poll_once-Polls}
use py_faa_s.Queue.{
  SortedSets, Codec, enqueue_job, dequeue_job, ack_job, queue_name, processing_set, has_id,
  dequeue_once, retry_upto,
}
use py_faa_s.Queue.Dequeue.{waits, in_flight}
use py_faa_s.Queue.Jobs.{dequeue_conserves, dequeue_least, dequeue-enqueue-enqueue, score-ack_job}

abbrev Scores : Type 0
Scores = List (String × ℤ)

get : Scores → String → Option ℤ
get [] n = none
get ((m, v) ∷ l) n = if str_eq m n then some v else get l n

del : String → Scores → Scores
del m [] = []
del m ((n, v) ∷ l) = let rest = del m l in if str_eq m n then rest else (n, v) ∷ rest

members : Scores → List String
members [] = []
members ((m, v) ∷ l) = m ∷ members l

abbrev better : String → Option ℤ → Option (String × ℤ) → Option (String × ℤ)
better m none r = r
better m (some w) none = some (m, w)
better m (some w) (some (n, x)) = if ltb_ℤ x w then some (n, x) else some (m, w)

-- The least of the scores in `full` of the members of the list.
least : Scores → Scores → Option (String × ℤ)
least full [] = none
least full ((m, v) ∷ l) = better m (get full m) (least full l)

get-del : (m n : String) (l : Scores) → get (del m l) n ≡ (if str_eq m n then none else get l n)
unfolding get del
get-del m n [] = ground arith
get-del m n ((k, v) ∷ l) = ground (arith, get-del m n l, eq_iff m k, eq_iff m n, eq_iff k n)

least-get :
    (full l : Scores) (m : String) (v : ℤ) → least full l ≡ some (m, v) → get full m ≡ some v
unfolding least
least-get full [] m v h = cc
least-get full ((k, w) ∷ l) m v h = ground (arith, least-get full l m v)

least-none :
    (full l : Scores) (n : String)
    → least full l ≡ none
    → str_mem n (members l) ≡ true
    → get full n ≡ none
unfolding least members
least-none full [] n h m = cc
least-none full ((k, w) ∷ l) n h m = ground (arith, least-none full l n, eq_iff n k)

least-le :
    (full l : Scores) (m n : String) (v w : ℤ)
    → least full l ≡ some (m, v)
    → str_mem n (members l) ≡ true
    → get full n ≡ some w
    → v ≤ℤ w
unfolding least members
least-le full [] m n v w h i g = cc
least-le full ((k, x) ∷ l) m n v w h i g = elim (Option-cases (least full l)) [
  | inl empty ↦ ground (arith, least-none full l n empty, eq_iff n k)
  | inr ((k', x'), rest) ↦ ground (arith, least-le full l k' n x' w rest, eq_iff n k)
]

str_mem-members : (n : String) (l : Scores) → str_mem n (members l) ≡ is_some (get l n)
unfolding members get
str_mem-members n [] = refl
str_mem-members n ((k, v) ∷ l) = ground (arith, str_mem-members n l, eq_iff n k, eq_iff k n)

abbrev Keyed : Type 0
Keyed = String → Scores

-- The key `k` is given the set `l`.
abbrev at_key : String → Scores → Keyed → Keyed
at_key k l s j = if str_eq k j then l else s j

abbrev popped : String → Keyed → Option (String × ℤ) → Option (String × ℤ) × Keyed
popped k s none = (none, s)
popped k s (some (m, v)) = (some (m, v), at_key k (del m (s k)) s)

pop : String → Keyed → Option (String × ℤ) × Keyed
pop k s = popped k s (least (s k) (s k))

least-own-none : (l : Scores) (n : String) → least l l ≡ none → get l n ≡ none
least-own-none l n h = elim (Option-cases (get l n)) [
  | inl missing ↦ missing
  | inr (w, there) ↦ least-none l l n h (rw (str_mem-members n l, there))
]

pop-least :
    (s : Keyed) (k m : String) (v : ℤ)
    → (pop k s).0 ≡ some (m, v)
    → (least (s k) (s k) ≡ some (m, v)) × ((pop k s).1 ≡ at_key k (del m (s k)) s)
unfolding pop
pop-least s k m v h = elim (Option-cases (least (s k) (s k))) [
  | inl none_left ↦ absurd (cc (rw none_left at h))
  | inr ((n, w), found) ↦ (ground arith, ground arith)
]

pop-idle :
    (s : Keyed) (k : String) → (pop k s).0 ≡ none → (least (s k) (s k) ≡ none) × ((pop k s).1 ≡ s)
unfolding pop
pop-idle s k h = (ground arith, ground arith)

abbrev put : String → String → ℤ → Keyed → Keyed
put k m v s = at_key k ((m, v) ∷ del m (s k)) s

abbrev remove : String → String → Keyed → Keyed
remove k m s = at_key k (del m (s k)) s

abbrev score_at : Keyed → String → String → Option ℤ
score_at s k m = get (s k) m

score_at-put :
    (s : Keyed) (k m : String) (v : ℤ) (j n : String)
    → score_at (put k m v s) j n ≡ (if str_eq k j && str_eq m n then some v else score_at s j n)
unfolding get
score_at-put s k m v j n = ground (arith, get-del m n (s k), eq_iff k j)

score_at-remove :
    (s : Keyed) (k m j n : String)
    → score_at (remove k m s) j n ≡ (if str_eq k j && str_eq m n then none else score_at s j n)
score_at-remove s k m j n = ground (arith, get-del m n (s k), eq_iff k j)

score_at-pop :
    (s : Keyed) (k m : String) (v : ℤ) (j n : String)
    → (pop k s).0 ≡ some (m, v)
    → score_at (pop k s).1 j n ≡ (if str_eq k j && str_eq m n then none else score_at s j n)
score_at-pop s k m v j n h = rw ((pop-least s k m v h).1) (score_at-remove s k m j n)

in_members : (l : Scores) (n : String) (w : ℤ) → get l n ≡ some w → str_mem n (members l) ≡ true
in_members l n w h = rw (str_mem-members n l, h)

abbrev in_memory : SortedSets
in_memory = record {
  State = Keyed;
  score = score_at;
  zadd = put;
  zrem = remove;
  bzpopmin = pop;
  zscan = λ k s. members (s k);
  score-zadd = score_at-put;
  score-zrem = score_at-remove;
  bzpopmin-idle = λ s k h. (pop-idle s k h).1;
  bzpopmin-none = λ s k n h. least-own-none (s k) n (pop-idle s k h).0;
  bzpopmin-score = λ s k m v h. least-get (s k) (s k) m v (pop-least s k m v h).0;
  bzpopmin-least = λ s k m n v w h g.
      least-le (s k) (s k) m n v w (pop-least s k m v h).0 (in_members (s k) n w g) g;
  score-bzpopmin = score_at-pop;
  zscan-score = λ s k m. str_mem-members m (s k);
}

-- An id written in unary, for jobs with no other content.
write : ℕ → String
write zero = ""
write (suc n) = String.◌∷◌ "a" (write n)

read : String → Option ℕ
read String.[] = some 0
read (String.◌∷◌ c s) = let rest = Option.map suc (read s) in if code c == b'a' then rest else none

read-write : (n : ℕ) → read (write n) ≡ some n
unfolding read write
read-write zero = refl
read-write (suc n) = rw (read-write n)

letter : Char
letter = "a"

write-read : (s : String) (n : ℕ) → read s ≡ some n → write n ≡ s
unfolding read write
write-read String.[] n h = rw (← some_inj.0 h)
write-read (String.◌∷◌ c s) n h = elim (Option-cases (read s)) [
  | inl bad ↦ absurd (ground arith)
  | inr (m, e) ↦
      let tail : write m ≡ s = write-read s m e in
      let number : n ≡ suc m = ground arith in
      let head : code c ≡ b'a' = ground arith in rw (number, tail, Char-path c "a" head)
]

-- A job's content is one letter: `b` or not.
tagged : Bool → Option ℕ → Option (ℕ × Bool)
tagged b none = none
tagged b (some n) = some (n, b)

decode : String → Option (ℕ × Bool)
decode String.[] = none
decode (String.◌∷◌ c s) =
    if code c == b'b'
    then tagged true (read s)
    else if code c == b'c'
    then tagged false (read s)
    else none

encode : ℕ × Bool → String
encode (n, true) = String.◌∷◌ "b" (write n)
encode (n, false) = String.◌∷◌ "c" (write n)

decode-encode : (j : ℕ × Bool) → decode (encode j) ≡ some j
unfolding decode encode tagged
decode-encode (n, true) = rw (read-write n) refl
decode-encode (n, false) = rw (read-write n) refl

abbrev unary : Codec Bool
unary = record { dumps = encode; loads = decode; loads-dumps = decode-encode }

abbrev no_keys : Keyed
no_keys k = []

-- Job 2 has waited longer, and job 5 has the higher priority.
abbrev two_jobs : Keyed
two_jobs =
    (enqueue_job in_memory unary 5 true 1 2000
      (enqueue_job in_memory unary 2 false 0 1000 no_keys).1).1

-- Before them wait texts that are no jobs.
abbrev behind_one : Keyed
behind_one = put queue_name "?" (pos 0 -ℤ pos 9000000000000) two_jobs

abbrev behind_three : Keyed
behind_three =
    put queue_name "x" (pos 0 -ℤ pos 7000000000000)
      (put queue_name "y" (pos 0 -ℤ pos 8000000000000) behind_one)

runs : Unit {0}
unfolding enqueue_job dequeue_job dequeue_once retry_upto ack_job get del members least pop read
    write decode encode tagged
runs = tt

priority_first : (dequeue_job in_memory unary two_jobs).0 ≡ ok (some (5, true))
unfolding runs ◌-ℤ◌
priority_first = refl

-- The second attempt returns what waits behind one text that is no job.
second_attempt : (dequeue_job in_memory unary behind_one).0 ≡ ok (some (5, true))
unfolding runs ◌-ℤ◌
second_attempt = refl

abbrev is_ok : {A : Type 0} → Result A → Bool
is_ok (ok _) = true
is_ok (err _) = false

third_attempt : is_ok (dequeue_job in_memory unary behind_three).0 ≡ false
unfolding runs ◌-ℤ◌
third_attempt = refl

dequeue_conserves_example :
    let after = (dequeue_job in_memory unary behind_one).1 in
    (waits in_memory unary after "caa" || in_flight in_memory unary after "caa")
    ≡ (waits in_memory unary behind_one "caa" || in_flight in_memory unary behind_one "caa")
dequeue_conserves_example = dequeue_conserves in_memory unary behind_one "caa"

dequeue_least_example :
    (m : String) × (v : ℤ) × (decode m ≡ some (5, true))
    × (score_at behind_one queue_name m ≡ some v)
    × (v ≤ℤ pos 1000)
    × (score_at (dequeue_job in_memory unary behind_one).1 queue_name m ≡ none)
    × (score_at (dequeue_job in_memory unary behind_one).1 processing_set m ≡ some v)
unfolding runs ◌-ℤ◌
dequeue_least_example =
    dequeue_least in_memory unary behind_one (5, true) (2, false) "caa" (pos 1000) refl refl refl

two_ne_five : ◌≢◌ {A = ℕ} 2 5
two_ne_five = omega arith

dequeue-enqueue-enqueue_example :
    (dequeue_job in_memory unary
      (enqueue_job in_memory unary 5 true 0 2000
        (enqueue_job in_memory unary 2 false 0 1000 no_keys).1).1).0
    ≡ ok (some (2, false))
unfolding get
dequeue-enqueue-enqueue_example =
    dequeue-enqueue-enqueue in_memory unary no_keys (2, false) (5, true) 0 0 1000 2000 (λ n. refl)
      two_ne_five (omega arith)

-- Jobs 2 and 5 are in flight, and job 2 is done.
abbrev in_flight_jobs : Keyed
in_flight_jobs =
    put processing_set "baaaaa" (pos 2000) (put processing_set "caa" (pos 1000) no_keys)

reads_two :
    (s : String)
    → in_flight in_memory unary in_flight_jobs s ≡ true
    → has_id 2 (decode s) ≡ true
    → s ≡ "caa"
unfolding runs
reads_two s there h = elim (Bool-cases (str_eq "baaaaa" s)) [
  | inl other ↦ absurd (five s (ground (arith, eq_iff "baaaaa" s, other)) h)
  | inr not_five ↦ ground (arith, there, not_five, eq_iff "caa" s)
]
  where
    five : (s : String) → s ≡ "baaaaa" → ¬ (has_id 2 (decode s) ≡ true)
    five s e k = cc (rw e at k)

score-ack_job_example :
    ((ack_job in_memory unary 2 in_flight_jobs).0 ≡ ok tt)
    × ((k n : String)
        → score_at (ack_job in_memory unary 2 in_flight_jobs).1 k n ≡ (
            if str_eq processing_set k && str_eq "caa" n
            then none
            else score_at in_flight_jobs k n))
unfolding runs
score-ack_job_example = score-ack_job in_memory unary in_flight_jobs 2 "caa" reads_two refl refl

-- A worker polls for job 5, whose execution is not there.
abbrev quick : Run
quick = record {
  started_at = 0;
  completed_at = 1;
  elapsed_ms = 1;
  outcome = wait_timed_out;
  meanwhile = λ db. db;
}

waiting_texts :
    (n : String) → held in_memory unary "w-0" quick two_jobs n ≡ true → (n ≡ "baaaaa") ⊎ (n ≡ "caa")
unfolding runs
waiting_texts n h = elim (Bool-cases (str_eq "baaaaa" n)) [
  | inl first ↦ inl (ground (arith, eq_iff "baaaaa" n, first))
  | inr other ↦ inr (ground (arith, h, other, eq_iff "caa" n))
]

one_text : OneText in_memory unary "w-0" quick two_jobs
unfolding runs
one_text id n m hn hm kn km = cases n m (waiting_texts n hn) (waiting_texts m hm) kn km
  where
    cases :
        (n m : String)
        → (n ≡ "baaaaa") ⊎ (n ≡ "caa")
        → (m ≡ "baaaaa") ⊎ (m ≡ "caa")
        → has_id id (decode n) ≡ true
        → has_id id (decode m) ≡ true
        → n ≡ m
    cases n m (inl a) (inl b) kn km = a ∙ sym b
    cases n m (inr a) (inr b) kn km = a ∙ sym b
    cases n m (inl a) (inr b) kn km = absurd (both (rw a at kn) (rw b at km))
      where
        both : (5 == id) ≡ true → (2 == id) ≡ true → ⊥
        both h k = ground arith
    cases n m (inr a) (inl b) kn km = absurd (both (rw a at kn) (rw b at km))
      where
        both : (2 == id) ≡ true → (5 == id) ≡ true → ⊥
        both h k = ground arith

poll_once-Polls_example :
    Polls in_memory unary "w-0" quick two_jobs db
      (poll_once in_memory unary "w-0" quick two_jobs db)
poll_once-Polls_example = poll_once-Polls in_memory unary "w-0" quick two_jobs db one_text
