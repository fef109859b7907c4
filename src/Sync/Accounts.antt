-- ===== src/Sync/Accounts.antt =====
-- RunFioSync: what the accounts' synchronisations have added together.
use bank_system_public.Base.{
  ℕ, ◌+◌, String, ◌≡◌, refl, sym, ap, ◌∙◌, Bool, true, false, not, ◌||◌, Option, none, some, List,
  [], ◌∷◌, ◌++◌, arith, length, length-append, Bool-cases, inl, inr, str_eq,
}
use mathlib.Core.Path.{subst}
use mathlib.Core.List.{append-nil, append_assoc}
use bank_system_public.Store.{
  Db, RawTransaction, BankAccount, Session, Result, ok, err, list_bank_accounts_with_token,
  next_fails, later, attempt,
}
use bank_system_public.Sync.{
  FioClient, SyncResult, SyncError, Synced, without_error, sync_or_skip, add_result, sync_accounts,
  sync_loaded, run_fio_sync,
}
use bank_system_public.Sync.Runs.{Tables, tables, SyncEnds, sync_account-SyncEnds}

abbrev pub inserted_by : List SyncResult → ℕ
inserted_by [] = 0
inserted_by (r ∷ rs) = r.transactions_inserted + inserted_by rs

-- As many raw transactions have been added at the end of the table as the results say; processed
-- transactions and coverage are the same.
abbrev pub Grows : ℕ → Tables → Tables → Type 0
Grows n t (raw, rest) =
    (new : List RawTransaction) × (raw ≡ t.0 ++ new) × (length new ≡ n) × (rest ≡ t.1)

Grows-same : (t t' : Tables) → t' ≡ t → Grows 0 t t'
Grows-same t t' e = ([], ap (λ u. u.0) e ∙ sym (append-nil t.0), refl, ap (λ u. u.1) e)

Grows-trans : (m n : ℕ) (t t' t'' : Tables) → Grows m t t' → Grows n t' t'' → Grows (m + n) t t''
Grows-trans m n t t' t'' (new, e, l, k) (new', e', l', k') = (
  new ++ new',
  e' ∙ ap (λ r. r ++ new') e ∙ append_assoc t.0 new new',
  length-append new new' ∙ omega (arith, l, l'),
  k' ∙ k,
)

zero_add : (n : ℕ) → 0 + n ≡ n
zero_add n = omega arith

module _ {Amount Bank : Type 0} (format_amount : Amount → String)
    (client_of : String → FioClient Bank Amount) where
  abbrev Added : Tables → Option SyncResult × Session × Bank → Type 0
  Added t (none, s, b) = Grows 0 t (tables s.db)
  Added t (some r, s, b) = Grows r.transactions_inserted t (tables s.db)

  Added-without_error :
      (account : ℕ) (client : FioClient Bank Amount) (b : Bank) (db : Db)
      (r : Synced format_amount Bank)
      → SyncEnds format_amount client account b db r
      → Added (tables db) (without_error format_amount client_of r)
  Added-without_error account client b db (ok r, s', b') (txs, f, (new, e, l, h, k), _, _) =
      (new, e, l, k)
  Added-without_error account client b db (err x, s', b') (e, _) =
      Grows-same (tables db) (tables s'.db) e

  sync_or_skip-Added :
      (account : BankAccount) (s : Session) (b : Bank)
      → Added (tables s.db) (sync_or_skip format_amount client_of account s b)
  unfolding sync_or_skip
  sync_or_skip-Added account s b =
      elim (Bool-cases (not account.is_active || str_eq account.fio_token "")) [
        | inl e ↦ rw e (Grows-same (tables s.db) (tables s.db) refl)
        | inr e ↦ rw e (
            Added-without_error account.id (client_of account.fio_token) b s.db _
              (sync_account-SyncEnds format_amount (client_of account.fio_token) account.id s b))
      ]

  sync_accounts-Grows :
      (accounts : List BankAccount) (s : Session) (b : Bank)
      → let (rs, s', b') = sync_accounts format_amount client_of accounts s b in
        Grows (inserted_by rs) (tables s.db) (tables s'.db)
  unfolding sync_accounts
  sync_accounts-Grows [] s b = Grows-same (tables s.db) (tables s.db) refl
  sync_accounts-Grows (a ∷ accounts) s b =
      let (r, s', b') = sync_or_skip format_amount client_of a s b in
      let (rs, s'', b'') = sync_accounts format_amount client_of accounts s' b' in
      both r s' b' rs s'' (sync_or_skip-Added a s b) (sync_accounts-Grows accounts s' b')
    where
      both :
          (r : Option SyncResult) (s' : Session) (b' : Bank) (rs : List SyncResult) (s'' : Session)
          → Added (tables s.db) (r, s', b')
          → Grows (inserted_by rs) (tables s'.db) (tables s''.db)
          → Grows
              (inserted_by (add_result format_amount client_of r rs))
              (tables s.db)
              (tables s''.db)
      both none s' b' rs s'' g h =
          subst (λ n. Grows n (tables s.db) (tables s''.db)) (zero_add (inserted_by rs))
            (Grows-trans 0 (inserted_by rs) (tables s.db) (tables s'.db) (tables s''.db) g h)
      both (some r) s' b' rs s'' g h =
          Grows-trans r.transactions_inserted (inserted_by rs) (tables s.db) (tables s'.db)
            (tables s''.db) g h

  abbrev pub RunEnds : Db → Result SyncError (List SyncResult) × Session × Bank → Type 0
  RunEnds db (ok rs, s', b') = Grows (inserted_by rs) (tables db) (tables s'.db)
  RunEnds db (err e, s', b') = s'.db ≡ db

  -- RunFioSync with a result has added as many raw transactions, at the end of the table, as the
  -- results of the accounts that succeeded say inserted, and has touched neither processed
  -- transactions nor coverage. With an error it has changed nothing.
  pub run_fio_sync-RunEnds :
      (s : Session) (b : Bank) → RunEnds s.db (run_fio_sync format_amount client_of s b)
  unfolding run_fio_sync list_bank_accounts_with_token
  run_fio_sync-RunEnds s b = go (next_fails s.faults)
    where
      t : Session
      t = record s { faults = later s.faults }

      listed :
          (accounts : List BankAccount)
          → RunEnds s.db (sync_loaded format_amount client_of (ok accounts, t) b)
      listed [] = refl
      listed (a ∷ accounts) = sync_accounts-Grows (a ∷ accounts) t b

      go :
          (fails : Bool)
          → RunEnds s.db
              (sync_loaded format_amount client_of (attempt fails (λ db. ok (db.accounts, db)) t) b)
      go true = refl
      go false = listed s.db.accounts
