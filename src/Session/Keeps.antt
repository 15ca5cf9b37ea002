-- ===== src/Session/Keeps.antt =====
-- Proof rules for request handlers: what a handler establishes of the rows that its session sees,
-- while a property of the committed rows is kept.
use py_faa_s.Prelude.{
  [], ◌∷◌, sym, ◌∙◌, arith, All-select, All-of_select, ◌≡◌, refl, Bool, true, false, Option, some,
  List, select, All, if◌then◌else◌,
}
use py_faa_s.Models.{Error, Result, ok, err}
use py_faa_s.Session.{
  Database, Session, Action, pure, raise_if, lift, ◌>>=◌, ◌>>◌, query, write, commit, get_db,
  closed, scalar_one_or_none, or_raise, scalar-some,
}

-- After a return `post` holds of the rows that the session sees; `P` is true of the committed rows.
abbrev pub Ends :
    {A : Type 0} (P : Database → Type 0) (post : A → Database → Type 0)
    → Result A × Session
    → Type 0
Ends P post (ok a, s) = post a s.live × P s.saved
Ends P post (err e, s) = P s.saved

pub record Keeps {A : Type 0} (P pre : Database → Type 0) (m : Action Session A)
    (post : A → Database → Type 0) : Type 0 where
  pub at : (s : Session) → pre s.live → P s.saved → Ends P post (m s)

module _ {P pre : Database → Type 0} where
  pub Keeps-pure :
      {A : Type 0} {post : A → Database → Type 0} (a : A)
      → ((db : Database) → pre db → post a db)
      → Keeps P pre (pure a) post
  Keeps-pure a h = record { at = λ s p q. (h s.live p, q) }

  pub Keeps-query :
      {A : Type 0} {post : A → Database → Type 0} (f : Database → A)
      → ((db : Database) → pre db → post (f db) db)
      → Keeps P pre (query f) post
  Keeps-query f h = record { at = λ s p q. (h s.live p, q) }

  pub Keeps-write :
      {post : Unit {0} → Database → Type 0} (f : Database → Database)
      → ((db : Database) → pre db → post tt (f db))
      → Keeps P pre (write f) post
  Keeps-write f h = record { at = λ s p q. (h s.live p, q) }

  pub Keeps-commit :
      {post : Unit {0} → Database → Type 0}
      → ((db : Database) → pre db → post tt db × P db)
      → Keeps P pre commit post
  Keeps-commit h = record { at = λ s p q. h s.live p }

  pub Keeps-lift :
      {A : Type 0} {post : A → Database → Type 0} (r : Result A)
      → ((a : A) (db : Database) → r ≡ ok a → pre db → post a db)
      → Keeps P pre (lift r) post
  Keeps-lift (ok a) h = record { at = λ s p q. (h a s.live refl p, q) }
  Keeps-lift (err e) h = record { at = λ s p q. q }

  pub Keeps-raise_if :
      {post : Unit {0} → Database → Type 0} (c : Bool) (e : Error)
      → ((db : Database) → c ≡ false → pre db → post tt db)
      → Keeps P pre (raise_if c e) post
  Keeps-raise_if true e h = record { at = λ s p q. q }
  Keeps-raise_if false e h = record { at = λ s p q. (h s.live refl p, q) }

  pub Keeps-weaken :
      {A : Type 0} (mid : A → Database → Type 0) {post : A → Database → Type 0}
      {m : Action Session A}
      → Keeps P pre m mid
      → ((a : A) (db : Database) → mid a db → post a db)
      → Keeps P pre m post
  Keeps-weaken {A = A} mid {post = post} {m = m} k h = record {
    at = λ s p q. ends (m s) (k.at s p q);
  }
    where
      ends : (r : Result A × Session) → Ends P mid r → Ends P post r
      ends (ok a, s) e = (h a s.live e.0, e.1)
      ends (err x, s) e = e

  pub Keeps-if :
      {A : Type 0} {post : A → Database → Type 0} (c : Bool) (m n : Action Session A)
      → (c ≡ true → Keeps P pre m post)
      → (c ≡ false → Keeps P pre n post)
      → Keeps P pre (if c then m else n) post
  Keeps-if true m n hm hn = hm refl
  Keeps-if false m n hm hn = hn refl

  pub Keeps-bind :
      {A B : Type 0} {post : B → Database → Type 0} (mid : A → Database → Type 0)
      {m : Action Session A} {f : A → Action Session B}
      → Keeps P pre m mid
      → ((a : A) → Keeps P (mid a) (f a) post)
      → Keeps P pre (m >>= f) post
  Keeps-bind {A = A} {B = B} {post = post} mid {m = m} {f = f} hm hf = record {
    at = λ s p q. next (m s) (hm.at s p q);
  }
    where
      next :
          (r : Result A × Session)
          → Ends P mid r
          → Ends P post (elim r.0 [ ok a ↦ f a r.1 | err e ↦ (err e, r.1) ])
      next (ok a, s) h = (hf a).at s h.0 h.1
      next (err e, s) h = h

module _ {P pre : Database → Type 0} {A B : Type 0} where
  pub Keeps-then :
      {post : B → Database → Type 0} (mid : Database → Type 0) {m : Action Session A}
      {n : Action Session B}
      → Keeps P pre m (λ _. mid)
      → Keeps P mid n post
      → Keeps P pre (m >> n) post
  Keeps-then mid hm hn = Keeps-bind (λ _. mid) hm (λ _. hn)

-- A request keeps what its handler keeps, whether it returns or raises.
pub Keeps-get_db :
    {A : Type 0} {P : Database → Type 0} {m : Action Session A} (db : Database)
    → Keeps P P m (λ _. P)
    → P db
    → P (get_db m db).1
unfolding get_db
Keeps-get_db {A = A} {P = P} {m = m} db k h =
    ends (m (record { live = db; saved = db })) (k.at _ h h)
  where
    ends : (r : Result A × Session) → Ends P (λ _. P) r → P (closed r)
    ends (ok a, s) e = e.0
    ends (err x, s) e = e

or_raise-ok :
    {A : Type 0} (e : Error) (r : Result (Option A)) (a : A) → or_raise e r ≡ ok a → r ≡ ok (some a)
or_raise-ok e r a h = ground arith

module _ {P pre : Database → Type 0} where
  -- The row that a query finds meets its condition, and what holds of all rows of the table.
  pub Keeps-find :
      {A : Type 0} (rows : Database → List A) (p : A → Bool) (e : Error) (R : A → Type 0)
      → ((db : Database) → pre db → All R (rows db))
      → Keeps P pre
          (query (λ db. select p (rows db)) >>= λ xs. lift (or_raise e (scalar_one_or_none xs)))
          (λ a db. pre db × R a × (p a ≡ true))
  Keeps-find rows p e R all =
      Keeps-bind (λ xs db. pre db × (xs ≡ select p (rows db)))
        (Keeps-query (λ db. select p (rows db)) (λ db h. (h, refl)))
        λ xs. Keeps-lift (or_raise e (scalar_one_or_none xs)) λ a db found (h, same).
          let one : select p (rows db) ≡ a ∷ [] =
            sym same ∙ scalar-some xs a (or_raise-ok e (scalar_one_or_none xs) a found) in
          (
            h,
            (rw one at (All-of_select R p (rows db) (all db h))).0,
            (rw one at (All-select p (rows db))).0,
          )
