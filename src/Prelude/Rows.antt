-- ===== src/Prelude/Rows.antt =====
-- Rows found by a key after an update of the rows of a key, and what an update leaves of a table.
use py_faa_s.Prelude.{
  ℕ, Bool, true, ◌≡◌, refl, ◌≢◌, List, [], ◌∷◌, ◌++◌, map, arith, ◌==◌, ==-refl, select,
  update_where, All,
}

module _ {ℓ} {A : Type ℓ} (key : A → ℕ) where
  -- The rows with key `k`.
  abbrev pub with_key : ℕ → List A → List A
  with_key k = select (λ x. key x == k)

  -- `v` in place of each row with its key.
  abbrev pub put : A → List A → List A
  put v = update_where (λ x. key x == key v) (λ _. v)

  pub with_key-put_self :
      (v : A) (xs : List A) → with_key (key v) (put v xs) ≡ map (λ _. v) (with_key (key v) xs)
  with_key-put_self v [] = refl
  with_key-put_self v (x ∷ xs) = ground (arith, with_key-put_self v xs, ==-refl (key v))

  pub with_key-put_ne :
      (k : ℕ) (v : A) (xs : List A) → k ≢ key v → with_key k (put v xs) ≡ with_key k xs
  with_key-put_ne k v [] h = refl
  with_key-put_ne k v (x ∷ xs) h = ground (arith, with_key-put_ne k v xs h)

  pub with_key-append :
      (k : ℕ) (xs ys : List A) → with_key k (xs ++ ys) ≡ with_key k xs ++ with_key k ys
  with_key-append k [] ys = refl
  with_key-append k (x ∷ xs) ys = ground (arith, with_key-append k xs ys)

  -- What a query by key finds has that key.
  pub All-with_key : (k : ℕ) (xs : List A) → All (λ x. key x ≡ k) (with_key k xs)
  All-with_key k [] = tt
  All-with_key k (x ∷ xs) = ground (arith, All-with_key k xs)

  -- An update of a row with a new key changes only that row.
  pub put-append_new :
      (v w : A) (xs : List A)
      → key w ≡ key v
      → All (λ x. key x ≢ key v) xs
      → put w (xs ++ v ∷ []) ≡ xs ++ w ∷ []
  put-append_new v w [] same new = ground (arith)
  put-append_new v w (x ∷ xs) same new = ground (arith, put-append_new v w xs same new.1)

-- A query that met no row meets a new one that fits.
pub select-append_one :
    {A : Type 0} (p : A → Bool) (xs : List A) (x : A)
    → select p xs ≡ []
    → p x ≡ true
    → select p (xs ++ x ∷ []) ≡ x ∷ []
select-append_one p [] x none_met met = ground (arith, met)
select-append_one p (y ∷ ys) x none_met met =
    ground (arith, none_met, select-append_one p ys x (ground (arith, none_met)) met)
