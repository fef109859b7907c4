-- ===== src/Sync/Runs.antt =====
-- syncAccount: what a synchronisation that succeeds has stored, and what one that fails leaves.
use bank_system_public.Base.{
  ℕ, String, ◌≡◌, refl, ◌∙◌, sym, ap, Bool, true, false, Option, none, some, List, [], ◌∷◌, ◌++◌,
  arith, All, length, str_eq, Bool-cases, inl, inr,
}
use mathlib.Core.List.{append-nil}
use mathlib.Core.Path.{subst}
use bank_system_public.Store.{
  Db, RawTransaction, ProcessedTransaction, Coverage, Session, Failure, Result, ok, err, is_stored,
  create_sync_fio_run, finish_sync_fio_run, update_bank_account_balance, get_max_fio_transaction_id,
  max_fio_id,
}
use bank_system_public.Sync.{
  FioTransaction, FioResponse, Fetched, response, strong_auth_required, fetch_failed, FioClient,
  SyncError, not_created, not_inserted, fio_error, fetch, finish_run, insert_transactions,
  update_balance, write_balance, sync_stored, sync_max, sync_listed, sync_parsed, sync_fetched,
  sync_created, sync_account, Synced,
}
use bank_system_public.Sync.Batch.{BatchEnds, insert_transactions-BatchEnds}

-- The tables that processing works on.
abbrev pub Tables : Type 0
Tables = List RawTransaction × (List ProcessedTransaction × List Coverage)

abbrev pub tables : Db → Tables
tables db = (db.raw, (db.processed, db.coverage))

tables-create :
    (account : ℕ) (s : Session) → tables (create_sync_fio_run account s).1.db ≡ tables s.db
unfolding create_sync_fio_run
tables-create account s = ground arith

tables-finish_run :
    (run : ℕ) (status : String) (fetched inserted : ℕ) (has_error : Bool) (s : Session)
    → tables (finish_run run status fetched inserted has_error s).db ≡ tables s.db
unfolding finish_run finish_sync_fio_run
tables-finish_run run status fetched inserted has_error s = ground arith

tables-get_max :
    (account : ℕ) (s : Session) → tables (get_max_fio_transaction_id account s).1.db ≡ tables s.db
unfolding get_max_fio_transaction_id
tables-get_max account s = ground arith

module _ {Amount : Type 0} (format_amount : Amount → String) where
  tables-write_balance :
      (account : ℕ) (balance : Option String) (s : Session)
      → tables (write_balance format_amount account balance s).db ≡ tables s.db
  unfolding update_bank_account_balance
  tables-write_balance account none s = refl
  tables-write_balance account (some balance) s = ground arith

  tables-update_balance :
      (account : ℕ) (r : FioResponse Amount) (s : Session)
      → tables (update_balance format_amount account r s).db ≡ tables s.db
  unfolding update_balance
  tables-update_balance account r s = elim (Bool-cases (str_eq r.account_id "")) [
    | inl e ↦ rw e refl
    | inr e ↦ rw e (tables-write_balance account r.closing_balance s)
  ]

  module _ {Bank : Type 0} (client : FioClient Bank Amount) (account : ℕ) where
    -- A batch of transactions is in the tables, which have grown by the number of raw transactions
    -- that the result says.
    abbrev pub Holds : List (FioTransaction Amount) → ℕ → Tables → Tables → Type 0
    Holds txs n t (raw, rest) =
        (new : List RawTransaction) × (raw ≡ t.0 ++ new)
        × (length new ≡ n)
        × All (λ tx. is_stored account tx.fio_transaction_id raw ≡ true) txs
        × (rest ≡ t.1)

    -- Fio has answered with an error.
    abbrev pub Refused : Fetched Amount → Type 0
    Refused (response r) = ⊥
    Refused strong_auth_required = Unit
    Refused fetch_failed = Unit

    -- Where the bank is after an error: if the insert has failed, its cursor has been asked to go back
    -- to the largest stored id; if not even the run could be recorded, nothing was asked.
    abbrev pub BankAfter : SyncError → Bank → ℕ → Bank → Type 0
    BankAfter (not_created x) b max b' = b' ≡ b
    BankAfter (not_inserted x) b max b' = b' ≡ (client.rewind_to max (fetch client b).1).1
    BankAfter fio_error b max b' = Refused (fetch client b).0 × (b' ≡ (fetch client b).1)
    BankAfter _ b max b' = b' ≡ (fetch client b).1

    abbrev pub ParsedEnds :
        Bank → List (FioTransaction Amount) → Tables → Synced format_amount Bank → Type 0
    ParsedEnds b txs t (ok r, s', b') =
        Holds txs r.transactions_inserted t (tables s'.db)
        × (r.transactions_fetched ≡ length txs)
        × (b' ≡ (fetch client b).1)
    ParsedEnds b txs t (err e, s', b') =
        (tables s'.db ≡ t) × BankAfter e b (max_fio_id account t.0) b'

    Ends-stored :
        (run : ℕ) (txs : List (FioTransaction Amount)) (max : ℕ) (db : Db) (r : Result Failure ℕ)
        (s' : Session) (b : Bank)
        → max ≡ max_fio_id account db.raw
        → BatchEnds format_amount account txs db (r, s')
        → ParsedEnds b txs
            (tables db)
            (sync_stored format_amount client account run txs max (r, s') (fetch client b).1)
    Ends-stored run txs max db (ok n) s' b m (new, e, l, h, k) = (
      subst (Holds txs n (tables db))
          (sym (tables-finish_run run "success" (length txs) n false s'))
          (new, e, l, h, ap (λ d. (d.processed, d.coverage)) k),
      refl,
      refl,
    )
    Ends-stored run txs max db (err x) s' b m e = (
      tables-finish_run run "failed" (length txs) 0 true s' ∙ ap tables e,
      ap (λ n. (client.rewind_to n (fetch client b).1).1) m,
    )

    Ends-max :
        (run : ℕ) (txs : List (FioTransaction Amount)) (t : Tables) (r : Result Failure ℕ)
        (s : Session) (b : Bank)
        → tables s.db ≡ t
        → ((max : ℕ) → r ≡ ok max → max ≡ max_fio_id account t.0)
        → ParsedEnds b txs t
            (sync_max format_amount client account run txs (r, s) (fetch client b).1)
    Ends-max run txs t (err x) s b e m =
        (tables-finish_run run "failed" (length txs) 0 true s ∙ e, refl)
    Ends-max run txs t (ok max) s b e m =
        let (r, s') = insert_transactions format_amount account txs s in
        subst
          (λ u.
            ParsedEnds b txs u
              (sync_stored format_amount client account run txs max (r, s') (fetch client b).1))
          e
          (Ends-stored run txs max s.db r s' b
            (m max refl ∙ sym (ap (λ u. max_fio_id account u.0) e))
            (insert_transactions-BatchEnds format_amount account txs s))

    max_of_tables :
        (t : Tables) (s : Session) (max : ℕ)
        → tables s.db ≡ t
        → (get_max_fio_transaction_id account s).0 ≡ ok max
        → max ≡ max_fio_id account t.0
    unfolding get_max_fio_transaction_id
    max_of_tables t s max e h = ground arith ∙ ap (λ u. max_fio_id account u.0) e

    Ends-listed :
        (run : ℕ) (txs : List (FioTransaction Amount)) (t : Tables) (s : Session) (b : Bank)
        → tables s.db ≡ t
        → ParsedEnds b txs t (sync_listed format_amount client account run txs s (fetch client b).1)
    Ends-listed run [] t s b e = (
      (
        [],
        ap (λ u. u.0) (tables-finish_run run "success" 0 0 false s ∙ e) ∙ sym (append-nil t.0),
        refl,
        tt,
        ap (λ u. u.1) (tables-finish_run run "success" 0 0 false s ∙ e),
      ),
      refl,
      refl,
    )
    Ends-listed run (tx ∷ txs) t s b e =
        let (r, s') = get_max_fio_transaction_id account s in
        Ends-max run (tx ∷ txs) t r s' b (tables-get_max account s ∙ e)
          (λ max h. max_of_tables t s max e h)

    -- What Fio has sent, if it has sent something that can be read.
    abbrev pub sent : Fetched Amount → Option (List (FioTransaction Amount))
    sent (response r) = r.transactions
    sent strong_auth_required = none
    sent fetch_failed = none

    abbrev pub SyncEnds : Bank → Db → Synced format_amount Bank → Type 0
    SyncEnds b db (ok r, s', b') =
        (txs : List (FioTransaction Amount)) × (sent (fetch client b).0 ≡ some txs)
        × Holds txs r.transactions_inserted (tables db) (tables s'.db)
        × (r.transactions_fetched ≡ length txs)
        × (b' ≡ (fetch client b).1)
    SyncEnds b db (err e, s', b') =
        (tables s'.db ≡ tables db) × BankAfter e b (max_fio_id account db.raw) b'

    Ends-Parsed :
        (b : Bank) (db : Db) (txs : List (FioTransaction Amount)) (r : Synced format_amount Bank)
        → sent (fetch client b).0 ≡ some txs
        → ParsedEnds b txs (tables db) r
        → SyncEnds b db r
    Ends-Parsed b db txs (ok r, s', b') f (h, k, l) = (txs, f, h, k, l)
    Ends-Parsed b db txs (err e, s', b') f h = h

    Ends-parsed :
        (b : Bank) (db : Db) (run : ℕ) (fr : FioResponse Amount)
        (o : Option (List (FioTransaction Amount))) (s : Session)
        → sent (fetch client b).0 ≡ o
        → tables s.db ≡ tables db
        → SyncEnds b db (sync_parsed format_amount client account run fr o s (fetch client b).1)
    Ends-parsed b db run fr none s f e = (tables-finish_run run "failed" 0 0 true s ∙ e, refl)
    Ends-parsed b db run fr (some txs) s f e = Ends-Parsed b db txs _ f (
        Ends-listed run txs (tables db) (update_balance format_amount account fr s) b
          (tables-update_balance account fr s ∙ e))

    Ends-fetched :
        (b : Bank) (db : Db) (run : ℕ) (f : Fetched Amount) (s : Session)
        → (fetch client b).0 ≡ f
        → tables s.db ≡ tables db
        → SyncEnds b db (sync_fetched format_amount client account run s (f, (fetch client b).1))
    Ends-fetched b db run (response r) s f e = Ends-parsed b db run r r.transactions s (ap sent f) e
    Ends-fetched b db run strong_auth_required s f e =
        (tables-finish_run run "failed" 0 0 true s ∙ e, (subst Refused (sym f) tt, refl))
    Ends-fetched b db run fetch_failed s f e =
        (tables-finish_run run "failed" 0 0 true s ∙ e, (subst Refused (sym f) tt, refl))

    -- A synchronisation that succeeds has stored all that Fio has sent: raw transactions have been
    -- added, as many as it reports inserted, and every transaction that Fio sent is among the raw
    -- transactions; it reports as many fetched as Fio sent, and Fio's cursor stays where the fetch has
    -- left it. One that fails has stored nothing; if it was the insert that failed, Fio has been asked
    -- to go back to the largest stored id. Neither touches processed transactions or coverage.
    pub sync_account-SyncEnds :
        (s : Session) (b : Bank) → SyncEnds b s.db (sync_account format_amount client account s b)
    unfolding sync_account
    sync_account-SyncEnds s b =
        let (r, s') = create_sync_fio_run account s in created r s' (tables-create account s)
      where
        created :
            (r : Result Failure ℕ) (s' : Session)
            → tables s'.db ≡ tables s.db
            → SyncEnds b s.db (sync_created format_amount client account (r, s') b)
        created (err e) s' h = (h, refl)
        created (ok run) s' h = Ends-fetched b s.db run (fetch client b).0 s' refl h
