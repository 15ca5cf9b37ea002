-- ===== src/Session/Reads.antt =====
-- Handlers that only read: the session stays as it is, whether they return or raise.
use py_faa_s.Prelude.{Bool, ◌≡◌, refl, ◌∙◌}
use py_faa_s.Models.{Error, Result, ok, err}
use py_faa_s.Session.{Database, Session, Action, raise_if, lift, query, ◌>>=◌}

pub record Reads {A : Type 0} (m : Action Session A) : Type 0 where
  pub same : (s : Session) → (m s).1 ≡ s

pub Reads-lift : {A : Type 0} (r : Result A) → Reads (lift r)
Reads-lift r = record { same = λ s. refl }

pub Reads-query : {A : Type 0} (f : Database → A) → Reads (query f)
Reads-query f = record { same = λ s. refl }

pub Reads-bind :
    {A B : Type 0} {m : Action Session A} {f : A → Action Session B}
    → Reads m
    → ((a : A) → Reads (f a))
    → Reads (m >>= f)
Reads-bind {A = A} {B = B} {m = m} {f = f} hm hf = record { same = λ s. next s (m s) (hm.same s) }
  where
    next :
        (s : Session) (r : Result A × Session)
        → r.1 ≡ s
        → (elim r.0 as (λ _. Result B × Session) [ ok a ↦ f a r.1 | err e ↦ (err e, r.1) ]).1 ≡ s
    next s (ok a, s') h = (hf a).same s' ∙ h
    next s (err e, s') h = h

pub Reads-raise_if : (c : Bool) (e : Error) → Reads (raise_if c e)
Reads-raise_if c e = record { same = λ s. refl }
