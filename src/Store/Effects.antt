-- ===== src/Store/Effects.antt =====
-- What an action may do to the database, with one rule for each way to build an action.
use bank_system_public.Base.{Bool, true, false, ◌≡◌, refl, sym, ◌∙◌, Option, arith}
use mathlib.Core.Path.{subst}
use bank_system_public.Store.Schema.{Db}
use bank_system_public.Store.Monad.{
  failed, Failure, Result, ok, err, Session, Action, Query, pure, raise, ◌>>=◌, statement, select,
  select_one, optional, on_failure, in_transaction, attempt, commit, begin, finish, next_fails,
  later, continue, outcome,
}

-- The action changes no table.
pub record ReadOnly {E A : Type 0} (m : Action E A) : Type 0 where
  pub at : (s : Session) → (m s).1.db ≡ s.db

abbrev pub Unchanged : {E A : Type 0} → Db → Result E A × Session → Type 0
Unchanged db (ok a, s) = Unit
Unchanged db (err e, s) = s.db ≡ db

-- An action that ends in an error has changed no table.
pub record Atomic {E A : Type 0} (m : Action E A) : Type 0 where
  pub at : (s : Session) → Unchanged s.db (m s)

-- The action keeps a predicate of the database, however it ends.
pub record Preserves {E A : Type 0} (P : Db → Type 0) (m : Action E A) : Type 0 where
  pub at : (s : Session) → P s.db → P (m s).1.db

module _ {A : Type 0} where
  pub ReadOnly-select : (f : Db → A) → ReadOnly (select f)
  ReadOnly-select f = record { at = λ s. ground arith }

  pub ReadOnly-select_one : (f : Db → Option A) → ReadOnly (select_one f)
  ReadOnly-select_one f = record { at = λ s. ground arith }

  pub ReadOnly-optional : (m : Query A) → ReadOnly m → ReadOnly (optional m)
  ReadOnly-optional m h = record { at = λ s. ground (arith, h.at s) }

module _ {E A : Type 0} where
  pub ReadOnly-pure : (a : A) → ReadOnly (pure {E = E} a)
  ReadOnly-pure a = record { at = λ s. refl }

  pub ReadOnly-raise : (e : E) → ReadOnly (raise {A = A} e)
  ReadOnly-raise e = record { at = λ s. refl }

  pub ReadOnly-on_failure : (m : Query A) (f : Failure → E) → ReadOnly m → ReadOnly (on_failure m f)
  ReadOnly-on_failure m f h = record { at = λ s. h.at s }

  pub ReadOnly-bind :
      {B : Type 0} (m : Action E A) (f : A → Action E B)
      → ReadOnly m
      → ((a : A) → ReadOnly (f a))
      → ReadOnly (m >>= f)
  ReadOnly-bind m f hm hf = record { at = λ s. go s (m s).0 (m s).1 (hm.at s) }
    where
      go :
          (s : Session) (r : Result E A) (s' : Session)
          → s'.db ≡ s.db
          → (continue r f s').1.db ≡ s.db
      go s (ok a) s' e = (hf a).at s' ∙ e
      go s (err e') s' e = e

  pub Atomic-ReadOnly : (m : Action E A) → ReadOnly m → Atomic m
  Atomic-ReadOnly m h = record { at = λ s. ground (arith, h.at s) }

  -- A transaction is atomic, whatever its body does.
  pub Atomic-in_transaction :
      (on_begin on_commit : Failure → E) (body : Action E A)
      → Atomic (in_transaction on_begin on_commit body)
  unfolding in_transaction
  Atomic-in_transaction on_begin on_commit body = record { at = λ s. start s (next_fails s.faults) }
    where
      end_of : (db : Db) (b : Bool) (a : A) (s : Session) → Unchanged db (commit on_commit db b a s)
      end_of db true a s = refl
      end_of db false a s = tt

      run_of : (db : Db) (r : Result E A) (s : Session) → Unchanged db (finish on_commit db r s)
      run_of db (ok a) s = end_of db (next_fails s.faults) a (record s { faults = later s.faults })
      run_of db (err e) s = refl

      start :
          (s : Session) (b : Bool)
          → Unchanged s.db (begin on_begin on_commit body b (record s { faults = later s.faults }))
      start s true = refl
      start s false = let (r, s') = body (record s { faults = later s.faults }) in run_of s.db r s'

  -- Reading first does not spoil atomicity.
  pub Atomic-bind :
      {B : Type 0} (m : Action E A) (f : A → Action E B)
      → ReadOnly m
      → ((a : A) → Atomic (f a))
      → Atomic (m >>= f)
  Atomic-bind m f hm hf = record { at = λ s. go s (m s).0 (m s).1 (hm.at s) }
    where
      keep :
          {B : Type 0} (s s' : Session) (r : Result E B × Session)
          → s'.db ≡ s.db
          → Unchanged s'.db r
          → Unchanged s.db r
      keep s s' (ok b, t) e h = tt
      keep s s' (err x, t) e h = h ∙ e

      go :
          (s : Session) (r : Result E A) (s' : Session)
          → s'.db ≡ s.db
          → Unchanged s.db (continue r f s')
      go s (ok a) s' e = keep s s' (f a s') e ((hf a).at s')
      go s (err x) s' e = e

module _ (P : Db → Type 0) where
  pub Preserves-ReadOnly : {E A : Type 0} (m : Action E A) → ReadOnly m → Preserves P m
  Preserves-ReadOnly m h = record { at = λ s p. subst P (sym (h.at s)) p }

  pub Preserves-bind :
      {E A B : Type 0} (m : Action E A) (f : A → Action E B)
      → Preserves P m
      → ((a : A) → Preserves P (f a))
      → Preserves P (m >>= f)
  Preserves-bind {E} {A} {B} m f hm hf = record { at = λ s p. go (m s).0 (m s).1 (hm.at s p) }
    where
      go : (r : Result E A) (s' : Session) → P s'.db → P (continue r f s').1.db
      go (ok a) s' p = (hf a).at s' p
      go (err e) s' p = p

  -- A statement keeps what its effect on the tables keeps.
  pub Preserves-statement :
      {A : Type 0} (f : Db → Result Failure (A × Db))
      → ((db : Db) (a : A) (db' : Db) → f db ≡ ok (a, db') → P db → P db')
      → Preserves P (statement f)
  Preserves-statement {A} f hf = record {
    at = λ s p. go (next_fails s.faults) (record s { faults = later s.faults }) p;
  }
    where
      done :
          (r : Result Failure (A × Db)) (s : Session) → f s.db ≡ r → P s.db → P (outcome r s).1.db
      done (ok (a, db')) s e p = hf s.db a db' e p
      done (err x) s e p = p

      go : (b : Bool) (s : Session) → P s.db → P (attempt b f s).1.db
      go true s p = p
      go false s p = done (f s.db) s refl p

  -- A statement that always writes.
  pub Preserves-write :
      {A : Type 0} (answer : Db → A) (write : Db → Db)
      → ((db : Db) → P db → P (write db))
      → Preserves P (statement (λ db. ok (answer db, write db)))
  Preserves-write {A} answer write h = record { at = λ s p. go (next_fails s.faults) s p }
    where
      go :
          (b : Bool) (s : Session)
          → P s.db
          → P
              (attempt b
                (λ db. ok (answer db, write db))
                (record s { faults = later s.faults })).1.db
      go true s p = p
      go false s p = h s.db p

  pub Preserves-on_failure :
      {E A : Type 0} (m : Query A) (f : Failure → E) → Preserves P m → Preserves P (on_failure m f)
  Preserves-on_failure m f h = record { at = λ s p. h.at s p }

  pub Preserves-in_transaction :
      {E A : Type 0} (on_begin on_commit : Failure → E) (body : Action E A)
      → Preserves P body
      → Preserves P (in_transaction on_begin on_commit body)
  unfolding in_transaction
  Preserves-in_transaction {E} {A} on_begin on_commit body h = record {
    at = λ s p. start s (next_fails s.faults) p;
  }
    where
      end_of :
          (db : Db) (b : Bool) (a : A) (s : Session)
          → P db
          → P s.db
          → P (commit on_commit db b a s).1.db
      end_of db true a s p q = p
      end_of db false a s p q = q

      run_of :
          (db : Db) (r : Result E A) (s : Session)
          → P db
          → P s.db
          → P (finish on_commit db r s).1.db
      run_of db (ok a) s p q =
          end_of db (next_fails s.faults) a (record s { faults = later s.faults }) p q
      run_of db (err e) s p q = p

      start :
          (s : Session) (b : Bool)
          → P s.db
          → P (begin on_begin on_commit body b (record s { faults = later s.faults })).1.db
      start s true p = p
      start s false p =
          let (r, s') = body (record s { faults = later s.faults }) in
          run_of s.db r s' p (h.at (record s { faults = later s.faults }) p)

-- To prove a property of a block that begins with a query: the query fails, or the rest runs.
module _ {A B : Type 0} where
  pub after_select :
      (P : Result Failure B × Session → Type 0) (f : Db → A) (k : A → Query B) (s : Session)
      → P (err failed, record s { faults = later s.faults })
      → P (k (f s.db) (record s { faults = later s.faults }))
      → P ((select f >>= k) s)
  after_select P f k s failing going = go (next_fails s.faults)
    where
      t : Session
      t = record s { faults = later s.faults }

      go : (b : Bool) → P (let (r, u) = attempt b (λ db. ok (f db, db)) t in continue r k u)
      go true = failing
      go false = going

module _ {E A B : Type 0} where
  pub after_ReadOnly :
      (P : Result E B × Session → Type 0) (m : Action E A) (k : A → Action E B) (s : Session)
      → ReadOnly m
      → ((e : E) (t : Session) → t.db ≡ s.db → P (err e, t))
      → ((a : A) (t : Session) → (m s).0 ≡ ok a → t.db ≡ s.db → P (k a t))
      → P ((m >>= k) s)
  after_ReadOnly P m k s h failing going = go (m s).0 (m s).1 refl (h.at s)
    where
      go : (r : Result E A) (t : Session) → (m s).0 ≡ r → t.db ≡ s.db → P (continue r k t)
      go (ok a) t c e = going a t c e
      go (err x) t c e = failing x t e
