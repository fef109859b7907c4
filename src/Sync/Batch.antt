-- ===== src/Sync/Batch.antt =====
-- insertTransactions: a batch is stored whole or not at all.
use bank_system_public.Base.{
  ℕ, ◌+◌, String, ◌≡◌, refl, ◌∙◌, sym, ap, Bool, true, false, List, [], ◌∷◌, ◌++◌, arith, ==_refl,
  All, any_row-append, length, length-append, if◌then◌else◌, Bool-cases, inl, inr,
}
use mathlib.Core.List.{append-nil, append_assoc}
use mathlib.Core.Path.{subst}
use bank_system_public.Store.{
  calm, Db, RawTransaction, Session, Failure, Result, ok, err, continue, attempt, next_fails, later,
  in_transaction, commit, finish, begin, is_stored, same_transaction, add_raw,
  insert_raw_transaction,
}
use bank_system_public.Processing.{same_failure}
use bank_system_public.Sync.{FioTransaction, to_insert_params, insert_all, insert_transactions}

from_zero : (n k : ℕ) → n ≡ 0 + k → n ≡ k
from_zero n k e = omega (arith, e)

module _ {Amount : Type 0} (format_amount : Amount → String) (account : ℕ) where
  -- The batch is stored: rows have been added at the end of the raw transactions, as many as it says;
  -- all its transactions are there, and no other table has changed.
  abbrev pub Stored : List (FioTransaction Amount) → ℕ → Db → Db → Type 0
  Stored txs n db db' =
      (new : List RawTransaction) × (db'.raw ≡ db.raw ++ new)
      × (length new ≡ n)
      × All (λ t. is_stored account t.fio_transaction_id db'.raw ≡ true) txs
      × (db' ≡ record db { raw = db'.raw; next_id = db'.next_id })

  Stored-nothing : (db : Db) → Stored [] 0 db db
  Stored-nothing db = ([], sym (append-nil db.raw), refl, tt, refl)

  abbrev Inserted : FioTransaction Amount → ℕ → Db → Db → Type 0
  Inserted t n db db' = Stored (t ∷ []) n db db'

  Inserted-add_raw :
      (t : FioTransaction Amount) (db : Db)
      → Inserted t
          (if is_stored account t.fio_transaction_id db.raw then 0 else 1)
          db
          (add_raw (to_insert_params format_amount account t) db)
  Inserted-add_raw t db = elim (Bool-cases (is_stored account t.fio_transaction_id db.raw)) [
    | inl e ↦ rw e ([], sym (append-nil db.raw), refl, (e, tt), refl)
    | inr e ↦ rw e (row ∷ [], refl, refl, (added e, tt), refl)
  ]
    where
      row : RawTransaction
      row = record (to_insert_params format_amount account t) { id = db.next_id }

      added :
          is_stored account t.fio_transaction_id db.raw ≡ false
          → is_stored account t.fio_transaction_id (db.raw ++ row ∷ []) ≡ true
      added e =
          any_row-append (same_transaction account t.fio_transaction_id) db.raw (row ∷ [])
          ∙ rw (e, ==_refl account, ==_refl t.fio_transaction_id) refl

  Stored-trans :
      (t : FioTransaction Amount) (ts : List (FioTransaction Amount)) (m n : ℕ) (db db' db'' : Db)
      → Inserted t m db db'
      → Stored ts n db' db''
      → Stored (t ∷ ts) (m + n) db db''
  Stored-trans t ts m n db db' db'' (new, e, l, (h, _), k) (new', e', l', h', k') = (
    new ++ new',
    e' ∙ rw e (append_assoc db.raw new new'),
    length-append new new' ∙ omega (arith, l, l'),
    (
      ap (is_stored account t.fio_transaction_id) e'
          ∙ any_row-append (same_transaction account t.fio_transaction_id) db'.raw new'
          ∙ rw h refl,
      h',
    ),
    k' ∙ ap with_new k,
  )
    where
      with_new : Db → Db
      with_new d = record d { raw = db''.raw; next_id = db''.next_id }

  abbrev Inserts : List (FioTransaction Amount) → ℕ → Db → Result Failure ℕ × Session → Type 0
  Inserts txs acc db (ok n, s') = (k : ℕ) × (n ≡ acc + k) × Stored txs k db s'.db
  Inserts txs acc db (err e, s') = Unit

  insert_all-Inserts :
      (txs : List (FioTransaction Amount)) (acc : ℕ) (s : Session)
      → Inserts txs acc s.db (insert_all format_amount account txs acc s)
  unfolding insert_all insert_raw_transaction
  insert_all-Inserts [] acc s = (0, omega arith, Stored-nothing s.db)
  insert_all-Inserts (t ∷ ts) acc s =
      start (next_fails s.faults) (insert_all-Inserts ts (acc + rows) inserted)
    where
      rows : ℕ
      rows = if is_stored account t.fio_transaction_id s.db.raw then 0 else 1

      inserted : Session
      inserted = record {
        db = add_raw (to_insert_params format_amount account t) s.db;
        faults = later s.faults;
      }

      insert : Db → Result Failure (ℕ × Db)
      insert db = ok (
        if is_stored account t.fio_transaction_id db.raw then 0 else 1,
        add_raw (to_insert_params format_amount account t) db,
      )

      both :
          (r : Result Failure ℕ) (u : Session)
          → Inserts ts (acc + rows) inserted.db (r, u)
          → Inserts (t ∷ ts) acc s.db (r, u)
      both (ok n) u (k, e, h) = (
        rows + k,
        omega (arith, e),
        Stored-trans t ts rows k s.db inserted.db u.db (Inserted-add_raw t s.db) h,
      )
      both (err x) u h = tt

      start :
          (fails : Bool)
          → Inserts ts
              (acc + rows)
              inserted.db
              (insert_all format_amount account ts (acc + rows) inserted)
          → Inserts (t ∷ ts) acc s.db (
              let (r, u) = attempt fails insert (record s { faults = later s.faults }) in
              continue r (λ n. insert_all format_amount account ts (acc + n)) u)
      start true h = tt
      start false h =
          let (r, u) = insert_all format_amount account ts (acc + rows) inserted in both r u h

  abbrev pub BatchEnds : List (FioTransaction Amount) → Db → Result Failure ℕ × Session → Type 0
  BatchEnds txs db (ok n, s') = Stored txs n db s'.db
  BatchEnds txs db (err e, s') = s'.db ≡ db

  -- A batch that is reported as inserted has been stored: as many raw transactions have been added as
  -- reported, every transaction of the batch is there, and no other table has changed. After an error
  -- the database is as it was.
  pub insert_transactions-BatchEnds :
      (txs : List (FioTransaction Amount)) (s : Session)
      → BatchEnds txs s.db (insert_transactions format_amount account txs s)
  unfolding insert_transactions in_transaction
  insert_transactions-BatchEnds txs s = start (next_fails s.faults)
    where
      t : Session
      t = record s { faults = later s.faults }

      ends :
          (b : Bool) (n : ℕ) (u : Session)
          → Stored txs n s.db u.db
          → BatchEnds txs s.db (commit same_failure s.db b n u)
      ends true n u h = refl
      ends false n u h = h

      run :
          (r : Result Failure ℕ) (u : Session)
          → Inserts txs 0 s.db (r, u)
          → BatchEnds txs s.db (finish same_failure s.db r u)
      run (ok n) u (k, e, h) =
          ends (next_fails u.faults) n (record u { faults = later u.faults })
            (rw (from_zero n k e) h)
      run (err x) u h = refl

      start :
          (b : Bool)
          → BatchEnds txs s.db
              (begin same_failure same_failure (insert_all format_amount account txs 0) b t)
      start true = refl
      start false =
          let (r, u) = insert_all format_amount account txs 0 t in
          run r u (insert_all-Inserts txs 0 t)

module _ {Amount : Type 0} (format_amount : Amount → String) (account : ℕ) where
  insert_all-stored :
      (txs : List (FioTransaction Amount)) (acc : ℕ) (db : Db)
      → All (λ t. is_stored account t.fio_transaction_id db.raw ≡ true) txs
      → insert_all format_amount account txs acc (calm db) ≡ (ok acc, calm db)
  unfolding insert_all insert_raw_transaction
  insert_all-stored [] acc db h = refl
  insert_all-stored (t ∷ ts) acc db (e, h) = rw e (
      ap (λ n. insert_all format_amount account ts n (calm db)) (plus_zero acc)
      ∙ insert_all-stored ts acc db h)
    where
      plus_zero : (n : ℕ) → n + 0 ≡ n
      plus_zero n = omega arith

  -- A batch that has been inserted once can be sent again: with no failing statement, it inserts
  -- nothing and leaves the database as it is.
  pub insert_transactions_idem :
      (txs : List (FioTransaction Amount)) (s t : Session) (n : ℕ)
      → insert_transactions format_amount account txs s ≡ (ok n, t)
      → insert_transactions format_amount account txs (calm t.db) ≡ (ok 0, calm t.db)
  unfolding insert_transactions in_transaction
  insert_transactions_idem txs s t n h = rw (insert_all-stored txs 0 t.db stored) refl
    where
      ends : BatchEnds format_amount account txs s.db (ok n, t)
      ends =
          subst (BatchEnds format_amount account txs s.db) h
            (insert_transactions-BatchEnds format_amount account txs s)

      stored : All (λ x. is_stored account x.fio_transaction_id t.db.raw ≡ true) txs
      stored = let (new, e, l, all, k) = ends in all
