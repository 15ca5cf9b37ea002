-- ===== src/System/Progress.antt =====
-- An execution only moves forward, whatever the sessions and their order.
use py_faa_s.Prelude.{
  ℕ, List, ◌==◌, ◌≡◌, ◌≢◌, refl, ◌∙◌, ap, ◌<◌, ◌⊎◌, inl, inr, [], ◌∷◌, ◌++◌, arith, All-of_select,
  map, All, Bool-cases,
}
use py_faa_s.Prelude.Rows.{
  with_key, put, with_key-put_self, with_key-put_ne, with_key-append, All-with_key,
}
use py_faa_s.Config.{Settings}
use py_faa_s.Worker.{Recovered, recover_rows}
use py_faa_s.Worker.Recovery.{IsOverdue, closed_row, Sweeps, done, pass, close, recover_rows-Sweeps}
use py_faa_s.Models.{Execution, ExecutionStatus, queued}
use py_faa_s.Functions.Removal.{history}
use py_faa_s.Models.Lifecycle.{rank}

-- What a session may do to an execution: keep its status, or move it to a later stage.
abbrev pub Moves : Execution → Execution → Type 0
Moves e e' = (e'.id ≡ e.id) × ((e'.status ≡ e.status) ⊎ (rank e.status < rank e'.status))

abbrev pub found_at : ℕ → List Execution → List Execution
found_at = with_key (λ (x : Execution). x.id)

-- Every execution of the first table that is alone with its id is so in the second, and has moved.
pub record Advances (xs ys : List Execution) : Type 0 where
  pub at :
      (id : ℕ) (e : Execution)
      → found_at id xs ≡ e ∷ []
      → (e' : Execution) × (found_at id ys ≡ e' ∷ []) × Moves e e'

pub Advances-refl : (xs : List Execution) → Advances xs xs
Advances-refl xs = record { at = λ id e h. (e, h, (refl, inl refl)) }

Moves-trans : (a b c : Execution) → Moves a b → Moves b c → Moves a c
Moves-trans a b c h k = ground (arith, h, k)

pub Advances-trans : (xs ys zs : List Execution) → Advances xs ys → Advances ys zs → Advances xs zs
Advances-trans xs ys zs h k = record {
  at = λ id e found.
      let (e', found', moves) = h.at id e found in
      let (e'', found'', moves') = k.at id e' found' in
      (e'', found'', Moves-trans e e' e'' moves moves');
}

pub Advances-put :
    (v : Execution) (xs : List Execution)
    → ((e : Execution) → found_at v.id xs ≡ e ∷ [] → Moves e v)
    → Advances xs (put (λ (x : Execution). x.id) v xs)
Advances-put v xs moves = record {
  at = λ id e found. elim (Bool-cases (id == v.id)) [
    | inl same ↦
        let here : id ≡ v.id = ground arith in
        let at_v : found_at v.id xs ≡ e ∷ [] = rw (← here) found in
        (
          v,
          rw here (
              with_key-put_self (λ (x : Execution). x.id) v xs
              ∙ ap (map (λ (_ : Execution). v)) at_v),
          moves e at_v,
        )
    | inr other ↦ (
      e,
      with_key-put_ne (λ (x : Execution). x.id) id v xs (ground arith) ∙ found,
      (refl, inl refl),
    )
  ];
}

pub found_id : (id : ℕ) (e : Execution) (xs : List Execution) → found_at id xs ≡ e ∷ [] → e.id ≡ id
found_id id e xs found = (rw found at (All-with_key (λ (x : Execution). x.id) id xs)).0

pub Advances-append :
    (v : Execution) (xs : List Execution) → All (λ x. x.id ≢ v.id) xs → Advances xs (xs ++ v ∷ [])
Advances-append v xs new = record {
  at = λ id e found.
      let other : e.id ≢ v.id =
        (rw found at (All-of_select (λ (x : Execution). x.id ≢ v.id) (λ x. x.id == id) xs new)).0 in
      let e_id : e.id ≡ id = found_id id e xs found in
      (
        e,
        with_key-append (λ (x : Execution). x.id) id xs (v ∷ [])
            ∙ ground (arith, found, other, e_id),
        (refl, inl refl),
      );
}

-- The two lists have the same length, and each row has moved.
abbrev AllMove : List Execution → List Execution → Type 0
AllMove [] [] = Unit
AllMove (x ∷ xs) (y ∷ ys) = Moves x y × AllMove xs ys
AllMove [] (y ∷ ys) = ⊥
AllMove (x ∷ xs) [] = ⊥

pub AllMove-Advances :
    (xs ys : List Execution)
    → ((id : ℕ) → AllMove (found_at id xs) (found_at id ys))
    → Advances xs ys
AllMove-Advances xs ys moves = record {
  at = λ id e found. alone e (found_at id ys) (rw found at (moves id));
}
  where
    alone :
        (e : Execution) (zs : List Execution)
        → AllMove (e ∷ []) zs
        → (e' : Execution) × (zs ≡ e' ∷ []) × Moves e e'
    alone e [] h = absurd h
    alone e (z ∷ []) h = (z, refl, h.0)
    alone e (z ∷ z' ∷ zs) h = absurd h.1

-- A table whose executions are the same but for their references.
history-AllMove :
    (id : ℕ) (xs ys : List Execution)
    → map history ys ≡ map history xs
    → AllMove (found_at id xs) (found_at id ys)
history-AllMove id [] [] h = tt
history-AllMove id [] (y ∷ ys) h = absurd (ground (arith, h))
history-AllMove id (x ∷ xs) [] h = absurd (ground (arith, h))
history-AllMove id (x ∷ xs) (y ∷ ys) h =
    let same_id : y.id ≡ x.id = ap (λ l. head_id l) h in
    let same_status : y.status ≡ x.status = ap (λ l. head_status l) h in
    ground (arith, history-AllMove id xs ys (ap tail_of h), same_id, same_status)
  where
    head_id : List Execution → ℕ
    head_id [] = 0
    head_id (z ∷ zs) = z.id

    head_status : List Execution → ExecutionStatus
    head_status [] = queued
    head_status (z ∷ zs) = z.status

    tail_of : List Execution → List Execution
    tail_of [] = []
    tail_of (z ∷ zs) = zs

pub history-Advances : (xs ys : List Execution) → map history ys ≡ map history xs → Advances xs ys
history-Advances xs ys h = AllMove-Advances xs ys (λ id. history-AllMove id xs ys h)

module _ (settings : Settings) (now : ℕ) where
  closed_Moves :
      (e : Execution) (started : ℕ)
      → IsOverdue settings now e started
      → Moves e (closed_row settings now e started)
  closed_Moves e started overdue = (refl, inr (ground (arith, overdue.runs)))

  found_AllMove :
      (id : ℕ) (es : List Execution) (swept : Recovered)
      → Sweeps settings now es swept
      → AllMove (found_at id es) (found_at id swept.0)
  found_AllMove id _ _ done = tt
  found_AllMove id _ _ (pass {e = e} {es = es} {rows = rows} {logs = logs} {n = n} left rest) =
      ground (arith, found_AllMove id es (rows, logs, n) rest)
  found_AllMove id _ _
        (close {e = e} {es = es} {rows = rows} {logs = logs} {n = n} started overdue rest) =
      ground (arith, found_AllMove id es (rows, logs, n) rest, closed_Moves e started overdue)

  pub recover_rows-Advances : (es : List Execution) → Advances es (recover_rows settings now es).0
  recover_rows-Advances es = AllMove-Advances es (recover_rows settings now es).0 (λ id.
      found_AllMove id es (recover_rows settings now es) (recover_rows-Sweeps settings now es))
