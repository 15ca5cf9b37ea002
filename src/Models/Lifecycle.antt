-- ===== src/Models/Lifecycle.antt =====
-- The life of an execution under the transition table of shared/db/models.py.
use py_faa_s.Prelude.{
  ℕ, ◌+◌, ◌≤◌, ◌<◌, ◌≡◌, refl, ◌⊎◌, inl, inr, Bool, true, false, List, [], ◌∷◌, arith, Bool-cases,
}
use py_faa_s.Models.{
  ExecutionStatus, pending, queued, running, completed, failed, timed_out, cancelled, Execution,
  Result, ok, err, transition_to, value_error, invalid_transition, status_mem, valid_transitions,
}

-- How far a status is along the life of an execution.
abbrev pub rank : ExecutionStatus → ℕ
rank pending = 0
rank queued = 1
rank running = 2
rank completed = 3
rank failed = 3
rank timed_out = 3
rank cancelled = 3

abbrev pub is_terminal : ExecutionStatus → Bool
is_terminal pending = false
is_terminal queued = false
is_terminal running = false
is_terminal _ = true

-- The arrows of the state machine, as a relation.
pub data Arrow : ExecutionStatus → ExecutionStatus → Type 0 where
  enqueue : Arrow pending queued
  withdraw : Arrow pending cancelled
  start : Arrow queued running
  cancel : Arrow queued cancelled
  refuse : Arrow queued failed
  complete : Arrow running completed
  fail : Arrow running failed
  time_out : Arrow running timed_out
  interrupt : Arrow running cancelled

-- A call that returns follows an arrow, and changes the status only.
pub transition_to-Arrow :
    (s : ExecutionStatus) (e e' : Execution)
    → transition_to s e ≡ ok e'
    → (rank e.status < rank s) × (e' ≡ record e { status = s })
unfolding transition_to
transition_to-Arrow s e e' h = ground arith

-- `try: e.transition_to(s) except ValueError: pass`, and whether it returned.
abbrev pub keep_or : Execution → Result Execution → Execution
keep_or e (ok e') = e'
keep_or e (err _) = e

abbrev pub counted : Result Execution → ℕ
counted (ok _) = 1
counted (err _) = 0

-- A history of calls, and how many of them returned.
abbrev pub attempts : List ExecutionStatus → Execution → Execution × ℕ
attempts [] e = (e, 0)
attempts (s ∷ ss) e =
    let r = transition_to s e in let (last, n) = attempts ss (keep_or e r) in (last, counted r + n)

step_rank :
    (s : ExecutionStatus) (e : Execution)
    → rank e.status + counted (transition_to s e) ≤ rank (keep_or e (transition_to s e)).status
unfolding transition_to
step_rank s e = ground arith

rank-le : (s : ExecutionStatus) → rank s ≤ 3
rank-le s = ground arith

rank-attempts :
    (ss : List ExecutionStatus) (e : Execution)
    → rank e.status + (attempts ss e).1 ≤ rank (attempts ss e).0.status
rank-attempts [] e = omega arith
rank-attempts (s ∷ ss) e =
    omega (arith, step_rank s e, rank-attempts ss (keep_or e (transition_to s e)))

-- Whatever transitions are attempted on an execution, at most three of them return, and one fewer
-- for each stage that the execution has already passed.
pub attempts_bound :
    (ss : List ExecutionStatus) (e : Execution) → rank e.status + (attempts ss e).1 ≤ 3
attempts_bound ss e = omega (arith, rank-attempts ss e, rank-le (attempts ss e).0.status)

raises_at_terminal :
    (s : ExecutionStatus) (e : Execution)
    → is_terminal e.status ≡ true
    → (keep_or e (transition_to s e) ≡ e) × (counted (transition_to s e) ≡ 0)
unfolding transition_to
raises_at_terminal s e h = ground arith

-- In a terminal status every later attempt raises, and the execution stays as it is.
pub attempts_at_terminal :
    (ss : List ExecutionStatus) (e : Execution)
    → is_terminal e.status ≡ true
    → attempts ss e ≡ (e, 0)
attempts_at_terminal [] e h = refl
attempts_at_terminal (s ∷ ss) e h =
    let (same, none_counted) = raises_at_terminal s e h in
    rw (same, none_counted, attempts_at_terminal ss e h) (ground arith)

Arrow_of_mem : (a b : ExecutionStatus) → status_mem b (valid_transitions a) ≡ true → Arrow a b
unfolding valid_transitions
Arrow_of_mem pending queued h = enqueue
Arrow_of_mem pending cancelled h = withdraw
Arrow_of_mem queued running h = start
Arrow_of_mem queued cancelled h = cancel
Arrow_of_mem queued failed h = refuse
Arrow_of_mem running completed h = complete
Arrow_of_mem running failed h = fail
Arrow_of_mem running timed_out h = time_out
Arrow_of_mem running cancelled h = interrupt
Arrow_of_mem _ _ h = cc

mem_of_Arrow : {a b : ExecutionStatus} → Arrow a b → status_mem b (valid_transitions a) ≡ true
unfolding valid_transitions
mem_of_Arrow enqueue = refl
mem_of_Arrow withdraw = refl
mem_of_Arrow start = refl
mem_of_Arrow cancel = refl
mem_of_Arrow refuse = refl
mem_of_Arrow complete = refl
mem_of_Arrow fail = refl
mem_of_Arrow time_out = refl
mem_of_Arrow interrupt = refl

-- `transition_to` returns exactly along the arrows of the state machine. It then changes the status
-- and nothing else; along no arrow it raises, with the two statuses in the message.
pub transition_to_decides :
    (s : ExecutionStatus) (e : Execution)
    → (Arrow e.status s × (transition_to s e ≡ ok (record e { status = s })))
      ⊎ ((¬ Arrow e.status s)
          × (transition_to s e ≡ err (value_error (invalid_transition e.status s))))
unfolding transition_to
transition_to_decides s e = elim (Bool-cases (status_mem s (valid_transitions e.status))) [
  | inl yes_mem ↦ inl (Arrow_of_mem e.status s yes_mem, rw yes_mem)
  | inr no_mem ↦ inr (λ a. cc (mem_of_Arrow a), rw no_mem)
]
