-- ===== src/Store/Monad.antt =====
-- What a piece of the program does with the database: statements that may fail, one after the other,
-- and transactions that roll back. A fault list says for each coming statement, BEGIN and COMMIT
-- whether it fails for a reason outside the program (a lost connection, a timeout); when the list
-- is used up nothing fails any more. A statement that fails changes nothing.
use bank_system_public.Base.{Bool, true, false, Option, none, some, List, [], ◌∷◌}
use bank_system_public.Store.Schema.{Db}

-- pgx.ErrNoRows, a unique violation (23505), a foreign key violation (23503), any other error.
pub data Failure : Type 0 where
  no_rows unique_violation foreign_key_violation failed : Failure

pub data Result (E A : Type 0) : Type 0 where
  ok : A → Result E A
  err : E → Result E A

pub record Session : Type 0 where
  pub db : Db
  pub faults : List Bool

abbrev pub Action : Type 0 → Type 0 → Type 0
Action E A = Session → Result E A × Session

-- An action whose errors are those of the database.
abbrev pub Query : Type 0 → Type 0
Query = Action Failure

module _ {E A : Type 0} where
  abbrev pub pure : A → Action E A
  pure a s = (ok a, s)

  abbrev pub raise : E → Action E A
  raise e s = (err e, s)

  abbrev pub continue : {B : Type 0} → Result E A → (A → Action E B) → Action E B
  continue (ok a) f s = f a s
  continue (err e) f s = (err e, s)

infixl 5 ◌>>=◌ ◌>>◌
abbrev pub ◌>>=◌ : {E A B : Type 0} → Action E A → (A → Action E B) → Action E B
◌>>=◌ m f s = let (r, s') = m s in continue r f s'

abbrev pub ◌>>◌ : {E A B : Type 0} → Action E A → Action E B → Action E B
m >> k = m >>= λ _. k

-- `if !ok { return e }`
abbrev pub require : {E : Type 0} → Bool → E → Action E (Unit {0})
require true e s = (ok tt, s)
require false e s = (err e, s)

abbrev pub next_fails : List Bool → Bool
next_fails [] = false
next_fails (b ∷ bs) = b

abbrev pub later : List Bool → List Bool
later [] = []
later (b ∷ bs) = bs

module _ {A : Type 0} where
  abbrev pub outcome : Result Failure (A × Db) → Session → Result Failure A × Session
  outcome (ok (a, db)) s = (ok a, record s { db = db })
  outcome (err e) s = (err e, s)

  abbrev pub attempt : Bool → (Db → Result Failure (A × Db)) → Query A
  attempt true f s = (err failed, s)
  attempt false f s = outcome (f s.db) s

  -- One statement.
  abbrev pub statement : (Db → Result Failure (A × Db)) → Query A
  statement f s = attempt (next_fails s.faults) f (record s { faults = later s.faults })

  -- SELECT
  abbrev pub select : (Db → A) → Query A
  select f = statement (λ db. ok (f db, db))

  abbrev pub or_no_rows : Db → Option A → Result Failure (A × Db)
  or_no_rows db none = err no_rows
  or_no_rows db (some a) = ok (a, db)

  -- SELECT of exactly one row (sqlc's :one)
  abbrev pub select_one : (Db → Option A) → Query A
  select_one f = statement (λ db. or_no_rows db (f db))

  -- `if errors.Is(err, pgx.ErrNoRows)`: no row is an answer, any other error stays one.
  abbrev pub or_none : Result Failure A × Session → Result Failure (Option A) × Session
  or_none (ok a, s) = (ok (some a), s)
  or_none (err no_rows, s) = (ok none, s)
  or_none (err e, s) = (err e, s)

  abbrev pub optional : Query A → Query (Option A)
  optional m s = or_none (m s)

-- The error of a query as the error of the caller.
module _ {E A : Type 0} where
  abbrev pub rename_error : (Failure → E) → Result Failure A → Result E A
  rename_error f (ok a) = ok a
  rename_error f (err e) = err (f e)

  abbrev pub on_failure : Query A → (Failure → E) → Action E A
  on_failure m f s = let (r, s') = m s in (rename_error f r, s')

  abbrev pub commit : (Failure → E) → Db → Bool → A → Session → Result E A × Session
  commit on_commit before true a s = (err (on_commit failed), record s { db = before })
  commit on_commit before false a s = (ok a, s)

  abbrev pub finish : (Failure → E) → Db → Result E A → Session → Result E A × Session
  finish on_commit before (ok a) s =
      commit on_commit before (next_fails s.faults) a (record s { faults = later s.faults })
  finish on_commit before (err e) s = (err e, record s { db = before })

  abbrev pub begin :
      (Failure → E) → (Failure → E) → Action E A → Bool → Session → Result E A × Session
  begin on_begin on_commit body true s = (err (on_begin failed), s)
  begin on_begin on_commit body false s = let (r, s') = body s in finish on_commit s.db r s'

  -- pool.Begin, the body, tx.Commit; the deferred tx.Rollback restores the database on every return
  -- with an error.
  unfoldable pub in_transaction : (Failure → E) → (Failure → E) → Action E A → Action E A
  in_transaction on_begin on_commit body s =
      begin on_begin on_commit body (next_fails s.faults) (record s { faults = later s.faults })

-- A session in which no statement fails.
abbrev pub calm : Db → Session
calm db = record { db = db; faults = [] }
