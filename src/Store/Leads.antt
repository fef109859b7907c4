-- ===== src/Store/Leads.antt =====
-- What an action makes of a condition of the database: from P it leads to Q where it succeeds, and to
-- R where it ends with an error. One rule for each way to build an action.
use bank_system_public.Base.{Bool, true, false, ◌≡◌, refl, sym, Option, none, some}
use mathlib.Core.Path.{subst}
use bank_system_public.Store.Effects.{ReadOnly}
use bank_system_public.Store.Schema.{Db}
use bank_system_public.Store.Monad.{
  Failure, Result, ok, err, Session, Action, pure, raise, require, ◌>>=◌, statement, select,
  select_one, on_failure, in_transaction, attempt, outcome, or_no_rows, rename_error, commit, begin,
  finish, next_fails, later, continue,
}

abbrev pub Reached :
    {E A : Type 0} → (A → Db → Type 0) → (Db → Type 0) → Result E A × Session → Type 0
Reached Q R (ok a, s) = Q a s.db
Reached Q R (err e, s) = R s.db

-- What a statement writes.
abbrev pub Written : {A : Type 0} → (A → Db → Type 0) → Result Failure (A × Db) → Type 0
Written Q (ok (a, db)) = Q a db
Written Q (err e) = Unit

pub record Leads {E A : Type 0} (P : Db → Type 0) (Q : A → Db → Type 0) (R : Db → Type 0)
    (m : Action E A) : Type 0 where
  pub at : (s : Session) → P s.db → Reached Q R (m s)

module _ {E A : Type 0} (P : Db → Type 0) (Q : A → Db → Type 0) (R : Db → Type 0) where
  pub Leads-pure : (a : A) → ((db : Db) → P db → Q a db) → Leads P Q R (pure {E = E} a)
  Leads-pure a f = record { at = λ s p. f s.db p }

  pub Leads-raise : (e : E) → ((db : Db) → P db → R db) → Leads P Q R (raise {A = A} e)
  Leads-raise e f = record { at = λ s p. f s.db p }

  -- A statement, an error of which changes nothing.
  pub Leads-statement :
      (f : Db → Result Failure (A × Db)) (g : Failure → E)
      → ((db : Db) → P db → R db)
      → ((db : Db) → P db → Written Q (f db))
      → Leads P Q R (on_failure (statement f) g)
  Leads-statement f g errs oks = record {
    at = λ s p. go (next_fails s.faults) (record s { faults = later s.faults }) p;
  }
    where
      done :
          (r : Result Failure (A × Db)) (s : Session)
          → Written Q r
          → P s.db
          → Reached Q R (let (q, t) = outcome r s in (rename_error g q, t))
      done (ok (a, db')) s q p = q
      done (err x) s q p = errs s.db p

      go :
          (b : Bool) (s : Session)
          → P s.db
          → Reached Q R (let (q, t) = attempt b f s in (rename_error g q, t))
      go true s p = errs s.db p
      go false s p = done (f s.db) s (oks s.db p) p

  -- A transaction has the effect of its body, or none.
  pub Leads-in_transaction :
      (on_begin on_commit : Failure → E) (body : Action E A)
      → ((db : Db) → P db → R db)
      → Leads P Q (λ _. Unit) body
      → Leads P Q R (in_transaction on_begin on_commit body)
  unfolding in_transaction
  Leads-in_transaction on_begin on_commit body errs h = record {
    at = λ s p. start s (next_fails s.faults) p;
  }
    where
      end_of :
          (db : Db) (b : Bool) (a : A) (s : Session)
          → P db
          → Q a s.db
          → Reached Q R (commit on_commit db b a s)
      end_of db true a s p q = errs db p
      end_of db false a s p q = q

      run_of :
          (db : Db) (r : Result E A) (s : Session)
          → P db
          → Reached Q (λ _. Unit) (r, s)
          → Reached Q R (finish on_commit db r s)
      run_of db (ok a) s p q =
          end_of db (next_fails s.faults) a (record s { faults = later s.faults }) p q
      run_of db (err e) s p q = errs db p

      start :
          (s : Session) (b : Bool)
          → P s.db
          → Reached Q R (begin on_begin on_commit body b (record s { faults = later s.faults }))
      start s true p = errs s.db p
      start s false p =
          let (r, s') = body (record s { faults = later s.faults }) in
          run_of s.db r s' p (h.at (record s { faults = later s.faults }) p)

module _ {E : Type 0} (P R : Db → Type 0) where
  pub Leads-require :
      (b : Bool) (e : E)
      → ((db : Db) → P db → R db)
      → Leads P (λ _ db. P db × (b ≡ true)) R (require b e)
  Leads-require true e errs = record { at = λ s p. (p, refl) }
  Leads-require false e errs = record { at = λ s p. errs s.db p }

  pub Leads-select :
      {A : Type 0} (f : Db → A) (g : Failure → E)
      → ((db : Db) → P db → R db)
      → Leads P (λ a db. P db × (f db ≡ a)) R (on_failure (select f) g)
  Leads-select f g errs = record { at = λ s p. go (next_fails s.faults) s p }
    where
      go :
          (b : Bool) (s : Session)
          → P s.db
          → Reached
              (λ a db. P db × (f db ≡ a))
              R
              (let (q, t) =
                  attempt b (λ db. ok (f db, db)) (record s { faults = later s.faults }) in
                (rename_error g q, t))
      go true s p = errs s.db p
      go false s p = (p, refl)

  pub Leads-select_one :
      {A : Type 0} (f : Db → Option A) (g : Failure → E)
      → ((db : Db) → P db → R db)
      → Leads P (λ a db. P db × (f db ≡ some a)) R (on_failure (select_one f) g)
  Leads-select_one {A} f g errs = record { at = λ s p. go (next_fails s.faults) s p }
    where
      found :
          (o : Option A) (s : Session)
          → f s.db ≡ o
          → P s.db
          → Reached
              (λ a db. P db × (f db ≡ some a))
              R
              (let (q, t) = outcome (or_no_rows s.db o) s in (rename_error g q, t))
      found none s e p = errs s.db p
      found (some a) s e p = (p, e)

      go :
          (b : Bool) (s : Session)
          → P s.db
          → Reached
              (λ a db. P db × (f db ≡ some a))
              R
              (let (q, t) =
                  attempt b (λ db. or_no_rows db (f db)) (record s { faults = later s.faults }) in
                (rename_error g q, t))
      go true s p = errs s.db p
      go false s p = found (f s.db) (record s { faults = later s.faults }) refl p

module _ {E A B : Type 0} (P : Db → Type 0) (Q : A → Db → Type 0) (S : B → Db → Type 0)
    (R : Db → Type 0) where
  pub Leads-bind :
      (m : Action E A) (f : A → Action E B)
      → Leads P Q R m
      → ((a : A) → Leads (Q a) S R (f a))
      → Leads P S R (m >>= f)
  Leads-bind m f hm hf = record { at = λ s p. go (m s).0 (m s).1 (hm.at s p) }
    where
      go : (r : Result E A) (t : Session) → Reached Q R (r, t) → Reached S R (continue r f t)
      go (ok a) t q = (hf a).at t q
      go (err e) t q = q

module _ {E A : Type 0} (P P' : Db → Type 0) (Q Q' : A → Db → Type 0) (R R' : Db → Type 0) where
  pub Leads-weaken :
      (m : Action E A)
      → ((db : Db) → P' db → P db)
      → ((a : A) (db : Db) → Q a db → Q' a db)
      → ((db : Db) → R db → R' db)
      → Leads P Q R m
      → Leads P' Q' R' m
  Leads-weaken m before after errs h = record {
    at = λ s p. go (m s).0 (m s).1 (h.at s (before s.db p));
  }
    where
      go : (r : Result E A) (t : Session) → Reached Q R (r, t) → Reached Q' R' (r, t)
      go (ok a) t q = after a t.db q
      go (err e) t q = errs t.db q

module _ {E A : Type 0} (P : Db → Type 0) where
  pub Leads-ReadOnly : (m : Action E A) → ReadOnly m → Leads P (λ _. P) P m
  Leads-ReadOnly m h = record { at = λ s p. go (m s).0 (m s).1 s.db (h.at s) p }
    where
      go : (r : Result E A) (t : Session) (db : Db) → t.db ≡ db → P db → Reached (λ _. P) P (r, t)
      go (ok a) t db e p = subst P (sym e) p
      go (err x) t db e p = subst P (sym e) p

-- What is known before the action starts.
module _ {E A : Type 0} (H : Type 0) (P : Db → Type 0) (Q : A → Db → Type 0) (R : Db → Type 0) where
  pub Leads-given : (m : Action E A) → (H → Leads P Q R m) → Leads (λ db. P db × H) Q R m
  Leads-given m f = record { at = λ s p. (f p.1).at s p.0 }

module _ {E A : Type 0} (P : Db → Type 0) (Q : A → Db → Type 0) (R : Db → Type 0) where
  pub Leads-from :
      {B : Type 0} (f : Db → B) (m : Action E A)
      → ((b : B) → Leads (λ db. P db × (f db ≡ b)) Q R m)
      → Leads P Q R m
  Leads-from f m h = record { at = λ s p. (h (f s.db)).at s (p, refl) }

-- An action that keeps a condition whether it succeeds or not.
module _ {E A : Type 0} (P : Db → Type 0) where
  pub after : (m : Action E A) (s : Session) → Leads P (λ _. P) P m → P s.db → P (m s).1.db
  after m s h p = go (m s).0 (m s).1 (h.at s p)
    where
      go : (r : Result E A) (t : Session) → Reached (λ _. P) P (r, t) → P t.db
      go (ok a) t q = q
      go (err e) t q = q

-- Two conclusions at once.
module _ {E A : Type 0} (P : Db → Type 0) (Q Q' S : A → Db → Type 0) where
  pub Leads-both :
      (m : Action E A)
      → Leads P Q (λ _. Unit) m
      → Leads P Q' (λ _. Unit) m
      → ((a : A) (db : Db) → Q a db → Q' a db → S a db)
      → Leads P S (λ _. Unit) m
  Leads-both m h h' join = record { at = λ s p. go (m s).0 (m s).1 (h.at s p) (h'.at s p) }
    where
      go :
          (r : Result E A) (t : Session)
          → Reached Q (λ _. Unit) (r, t)
          → Reached Q' (λ _. Unit) (r, t)
          → Reached S (λ _. Unit) (r, t)
      go (ok a) t q q' = join a t.db q q'
      go (err e) t q q' = tt
