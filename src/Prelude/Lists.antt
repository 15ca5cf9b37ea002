-- ===== src/Prelude/Lists.antt =====
-- Lists measured by native numbers, predicates on lists, and the rows that a query meets.
use Prim.Native.Nat.{ℕ, suc, ◌+◌}
use mathlib.Core.Path.{◌≡◌, refl}
use mathlib.Core.Bool.{Bool, true, false, ◌||◌}
use mathlib.Core.List.{List, [], ◌∷◌, ◌++◌}
use native.Mathlib.Omega.{arith}
use py_faa_s.Prelude.Tests.{if◌then◌else◌}

module _ {ℓ} {A : Type ℓ} where
  abbrev pub length : List A → ℕ
  length [] = 0
  length (x ∷ xs) = suc (length xs)

  -- `SELECT … WHERE p`: the rows that meet `p`, in the order of the table.
  abbrev pub select : (A → Bool) → List A → List A
  select p [] = []
  select p (x ∷ xs) = let rest = select p xs in if p x then x ∷ rest else rest

  -- `UPDATE … SET f WHERE p`
  abbrev pub update_where : (A → Bool) → (A → A) → List A → List A
  update_where p f [] = []
  update_where p f (x ∷ xs) = (if p x then f x else x) ∷ update_where p f xs

  -- `DELETE … WHERE p`
  abbrev pub delete_where : (A → Bool) → List A → List A
  delete_where p [] = []
  delete_where p (x ∷ xs) = let rest = delete_where p xs in if p x then rest else x ∷ rest

  -- `SELECT COUNT(*) … WHERE p`
  abbrev pub count_where : (A → Bool) → List A → ℕ
  count_where p [] = 0
  count_where p (x ∷ xs) = let rest = count_where p xs in if p x then suc rest else rest

  abbrev pub any : (A → Bool) → List A → Bool
  any p [] = false
  any p (x ∷ xs) = p x || any p xs

module _ {ℓ κ} {A : Type ℓ} where
  abbrev pub All : (A → Type κ) → List A → Type κ
  All P [] = Unit
  All P (x ∷ xs) = P x × All P xs

module _ {ℓ κ} {A : Type ℓ} (P : A → Type κ) where
  pub All-append : (xs ys : List A) → All P xs → All P ys → All P (xs ++ ys)
  All-append [] ys hx hy = hy
  All-append (x ∷ xs) ys hx hy = (hx.0, All-append xs ys hx.1 hy)

  -- An update keeps `P` of every row if it keeps `P` of each row that it changes.
  pub All-update_where :
      (p : A → Bool) (f : A → A) (xs : List A)
      → ((x : A) → p x ≡ true → P x → P (f x))
      → All P xs
      → All P (update_where p f xs)
  All-update_where p f [] keep h = tt
  All-update_where p f (x ∷ xs) keep h =
      (changed (p x) (keep x) h.0, All-update_where p f xs keep h.1)
    where
      changed : (b : Bool) → (b ≡ true → P x → P (f x)) → P x → P (if b then f x else x)
      changed true k px = k refl px
      changed false k px = px

  pub All-delete_where : (p : A → Bool) (xs : List A) → All P xs → All P (delete_where p xs)
  All-delete_where p [] h = tt
  All-delete_where p (x ∷ xs) h = kept (All-delete_where p xs h.1) (p x)
    where
      kept :
          All P (delete_where p xs)
          → (b : Bool) → All P (if b then delete_where p xs else x ∷ delete_where p xs)
      kept rest true = rest
      kept rest false = (h.0, rest)

module _ {ℓ} {A : Type ℓ} where
  -- What a `DELETE` leaves does not meet its condition.
  pub delete_where_none : (p : A → Bool) (xs : List A) → All (λ x. p x ≡ false) (delete_where p xs)
  delete_where_none p [] = tt
  delete_where_none p (x ∷ xs) = kept (delete_where_none p xs) (p x) refl
    where
      kept :
          All (λ y. p y ≡ false) (delete_where p xs)
          → (b : Bool) → p x ≡ b
          → All (λ y. p y ≡ false) (if b then delete_where p xs else x ∷ delete_where p xs)
      kept rest true e = rest
      kept rest false e = (e, rest)

  pub length-append : (xs ys : List A) → length (xs ++ ys) ≡ length xs + length ys
  length-append [] ys = omega arith
  length-append (x ∷ xs) ys = omega (arith, length-append xs ys)

  -- Every row that a `SELECT` finds meets its condition.
  pub All-select : (p : A → Bool) (xs : List A) → All (λ x. p x ≡ true) (select p xs)
  All-select p [] = tt
  All-select p (x ∷ xs) = found (All-select p xs) (p x) refl
    where
      found :
          All (λ y. p y ≡ true) (select p xs)
          → (b : Bool) → p x ≡ b
          → All (λ y. p y ≡ true) (if b then x ∷ select p xs else select p xs)
      found rest true e = (e, rest)
      found rest false e = rest

module _ {ℓ κ} {A : Type ℓ} (P : A → Type κ) where
  pub All-of_select : (p : A → Bool) (xs : List A) → All P xs → All P (select p xs)
  All-of_select p [] h = tt
  All-of_select p (x ∷ xs) h = kept (All-of_select p xs h.1) (p x)
    where
      kept : All P (select p xs) → (b : Bool) → All P (if b then x ∷ select p xs else select p xs)
      kept rest true = (h.0, rest)
      kept rest false = rest

  -- The new value of each updated row has the property, and the others keep it.
  pub All-update_to :
      (p : A → Bool) (v : A) (xs : List A) → P v → All P xs → All P (update_where p (λ _. v) xs)
  All-update_to p v xs hv h = All-update_where P p (λ _. v) xs (λ _ _ _. hv) h
