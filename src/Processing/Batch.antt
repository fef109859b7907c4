-- ===== src/Processing/Batch.antt =====
-- processing.Run: what a whole run counts and adds, and that a run with no failing statement leaves
-- nothing unprocessed.
use bank_system_public.Base.{
  ℕ, ◌+◌, String, ◌≡◌, refl, ◌∙◌, sym, List, [], ◌∷◌, ◌++◌, arith, length,
}
use mathlib.Core.List.{append-nil, append_assoc}
use bank_system_public.Store.{
  Db, RawTransaction, ProcessedTransaction, CategorizationRule, Result, ok, err, Failure, Session,
  unprocessed, processed_row, later, list_unprocessed_transactions,
  list_enabled_categorization_rules, list_active_bank_account_numbers, enabled_rules,
}
use bank_system_public.Store.Effects.{
  ReadOnly, ReadOnly-select, ReadOnly-pure, ReadOnly-bind, after_select, after_ReadOnly,
}
use bank_system_public.Processing.{
  RunResult, tally, process_one, load_rules, run_rows, run_loaded, run,
}
use bank_system_public.Processing.Atomicity.{params, Processes, process_one-Processes}

-- The table has grown by the given number of rows at its end.
abbrev pub GrewBy : ℕ → Db → Db → Type 0
GrewBy n db db' =
    (new : List ProcessedTransaction) × (db'.processed ≡ db.processed ++ new) × (length new ≡ n)

module _ (lower : ℕ → ℕ) (rules : List CategorizationRule) (accounts : List String) where
  abbrev Counts : List RawTransaction → RunResult → Session → RunResult × Session → Type 0
  Counts rows acc s (r, s') =
      (n : ℕ) × (r.transactions_processed ≡ acc.transactions_processed + n)
      × (r.transactions_failed + n ≡ acc.transactions_failed + length rows)
      × GrewBy n s.db s'.db

  GrewBy-step :
      (rt : RawTransaction) (s : Session) (r : Result Failure (Unit {0})) (s' : Session)
      (acc : RunResult) (rows : List RawTransaction) (last : RunResult × Session)
      → Processes lower rt rules accounts s (r, s')
      → Counts rows (tally r acc) s' last
      → Counts (rt ∷ rows) acc s last
  GrewBy-step rt s (ok _) s' acc rows (res, t) (o, _, _, e) (n, p, f, (new, grown, count)) = (
    n + 1,
    omega (arith, p),
    omega (arith, f),
    (
      processed_row s.db.next_id (params rt o) ∷ new,
      grown
          ∙ rw e (append_assoc s.db.processed (processed_row s.db.next_id (params rt o) ∷ []) new),
      omega (arith, count),
    ),
  )
  GrewBy-step rt s (err x) s' acc rows (res, t) e (n, p, f, (new, grown, count)) =
      (n, p, omega (arith, f), (new, grown ∙ rw e refl, count))

  run_rows-Counts :
      (rows : List RawTransaction) (acc : RunResult) (s : Session)
      → Counts rows acc s (run_rows lower rows rules accounts acc s)
  unfolding run_rows
  run_rows-Counts [] acc s =
      (0, omega arith, omega arith, ([], sym (append-nil s.db.processed), refl))
  run_rows-Counts (rt ∷ rts) acc s =
      let (r, s') = process_one lower rt rules accounts s in
      GrewBy-step rt s r s' acc rts (run_rows lower rts rules accounts (tally r acc) s')
        (process_one-Processes lower rt rules accounts s) (run_rows-Counts rts (tally r acc) s')

abbrev no_result : RunResult
no_result = record { transactions_processed = 0; transactions_failed = 0 }

-- What a run that ends with a result has counted.
abbrev pub Accounts : Db → Result Failure RunResult × Session → Type 0
Accounts db (ok r, s') =
    GrewBy r.transactions_processed db s'.db
    × (r.transactions_processed + r.transactions_failed ≡ length (unprocessed db))
Accounts db (err e, s') = s'.db ≡ db

pub ReadOnly-load_rules : ReadOnly load_rules
unfolding load_rules list_enabled_categorization_rules list_active_bank_account_numbers
ReadOnly-load_rules =
    ReadOnly-bind _ _ (ReadOnly-select enabled_rules)
      (λ rules. ReadOnly-bind _ _ (ReadOnly-select _) (λ accounts. ReadOnly-pure _))

run_loaded-Accounts :
    (lower : ℕ → ℕ) (s : Session) (loaded : List CategorizationRule × List String) (t : Session)
    → t.db ≡ s.db
    → Accounts s.db (run_loaded lower (unprocessed s.db) loaded t)
unfolding run_loaded
run_loaded-Accounts lower s loaded t same =
    let (n, p, f, (new, grown, count)) =
      run_rows-Counts lower loaded.0 loaded.1 (unprocessed s.db) no_result t in
    ((new, grown ∙ rw same refl, omega (arith, p, count)), omega (arith, p, f))

-- A run that reports a result has added exactly as many processed rows, at the end of the table, as
-- it reports processed, and processed and failed together are the transactions that were waiting;
-- a run that reports an error has changed nothing.
pub run-Accounts : (lower : ℕ → ℕ) (s : Session) → Accounts s.db (run lower s)
unfolding run list_unprocessed_transactions
run-Accounts lower s = after_select (Accounts s.db) unprocessed _ s refl (
    after_ReadOnly (Accounts s.db) load_rules (run_loaded lower (unprocessed s.db))
      (record s { faults = later s.faults }) ReadOnly-load_rules (λ e t same. same)
      (λ loaded t _ same. run_loaded-Accounts lower s loaded t same))
