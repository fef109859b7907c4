-- ===== src/Store/Reads.antt =====
-- To prove a property of a block that begins with a SELECT, the error of which the block renames:
-- the statement fails, finds no row, or the rest runs on what it finds.
use bank_system_public.Base.{Bool, true, false, ◌≡◌, refl, Option, none, some}
use bank_system_public.Store.Schema.{Db}
use bank_system_public.Store.Monad.{
  Failure, no_rows, failed, Result, ok, err, Session, Action, ◌>>=◌, select, select_one, on_failure,
  attempt, outcome, rename_error, or_no_rows, continue, next_fails, later,
}

module _ {E A B : Type 0} (P : Result E B × Session → Type 0) (g : Failure → E) where
  pub after_read :
      (f : Db → A) (k : A → Action E B) (s : Session)
      → ((t : Session) → t.db ≡ s.db → P (err (g failed), t))
      → ((t : Session) → t.db ≡ s.db → P (k (f s.db) t))
      → P ((on_failure (select f) g >>= k) s)
  after_read f k s failing going = go (next_fails s.faults)
    where
      t : Session
      t = record s { faults = later s.faults }

      go :
          (b : Bool)
          → P (let (r, u) = attempt b (λ db. ok (f db, db)) t in continue (rename_error g r) k u)
      go true = failing t refl
      go false = going t refl

  pub after_row :
      (f : Db → Option A) (k : A → Action E B) (s : Session)
      → ((t : Session) → t.db ≡ s.db → P (err (g failed), t))
      → ((t : Session) → t.db ≡ s.db → f s.db ≡ none → P (err (g no_rows), t))
      → ((a : A) (t : Session) → t.db ≡ s.db → f s.db ≡ some a → P (k a t))
      → P ((on_failure (select_one f) g >>= k) s)
  after_row f k s failing absent going = go (next_fails s.faults)
    where
      t : Session
      t = record s { faults = later s.faults }

      found :
          (o : Option A)
          → f s.db ≡ o
          → P (let (r, u) = outcome (or_no_rows s.db o) t in continue (rename_error g r) k u)
      found none e = absent t refl e
      found (some a) e = going a t refl e

      go :
          (b : Bool)
          → P (
              let (r, u) = attempt b (λ db. or_no_rows db (f db)) t in
              continue (rename_error g r) k u)
      go true = failing t refl
      go false = found (f s.db) refl
