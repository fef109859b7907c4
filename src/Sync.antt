-- ===== src/Sync.antt =====
-- internal/syncjob/fio.go: the synchronisation of the accounts with Fio bank. Its server is a parameter:
-- a type of its states and the requests that the client makes, each with its answer and the next
-- state. A float amount is a parameter too, with strconv.FormatFloat(x, 'f', 2, 64). A panic, which
-- the code turns into a failed run, is not modelled.
pub mod Orca
pub mod Stale
pub mod Batch
pub mod Runs
pub mod Cursor
pub mod Accounts
pub mod Columns
mod Tests
use bank_system_public.Base.{
  ℕ, zero, suc, ◌+◌, String, Bool, true, false, ◌||◌, Option, none, some, List, [], ◌∷◌, length,
  str_eq, not, if◌then◌else◌,
}
use bank_system_public.Calendar.{Date}
use bank_system_public.Store.{
  RawTransaction, BankAccount, Failure, Result, ok, err, Session, Query, pure, raise, ◌>>=◌,
  in_transaction, insert_raw_transaction, get_max_fio_transaction_id, create_sync_fio_run,
  finish_sync_fio_run, update_bank_account_balance, optional, get_bank_account_with_token,
  list_bank_accounts_with_token,
}
use bank_system_public.Processing.{same_failure}

-- fio.Transaction, by the type of its id (a natural number or a signed one)
pub record FioTransactionOf (Key Amount : Type 0) : Type 0 where
  pub fio_transaction_id : Key
  pub transaction_date : Date
  pub amount : Amount
  pub currency : String
  pub counter_account_number : Option String
  pub counter_account_name : Option String
  pub counter_bank_code : Option String
  pub counter_bank_name : Option String
  pub bic : Option String
  pub variable_symbol : Option String
  pub specific_symbol : Option String
  pub constant_symbol : Option String
  pub user_identification : Option String
  pub message_for_recipient : Option String
  pub transaction_type : Option String
  pub executor : Option String
  pub specification : Option String
  pub comment : Option String
  pub instruction_id : Option String
  pub raw_payload : String

-- The synchronisation is modelled for ids that are not negative.
abbrev pub FioTransaction : Type 0 → Type 0
FioTransaction Amount = FioTransactionOf ℕ Amount

-- A TransactionsResponse: `transactions` is what Transactions() reads from it (`none`: it cannot), and
-- `closing_balance` the balance as a number for the database (`none`: it is not one).
pub record FioResponse (Amount : Type 0) : Type 0 where
  pub account_id : String
  pub closing_balance : Option String
  pub transactions : Option (List (FioTransaction Amount))

pub data Fetched (Amount : Type 0) : Type 0 where
  response : FioResponse Amount → Fetched Amount
  strong_auth_required : Fetched Amount
  fetch_failed : Fetched Amount

-- The requests of fio.FioClient. A Boolean answer is whether the request failed; `set_last_date`
-- takes the number of days before today.
pub record FioClient (Bank Amount : Type 0) : Type 0 where
  pub fetch_new : Bank → Fetched Amount × Bank
  pub set_last_date : ℕ → Bank → Bool × Bank
  pub rewind_to : ℕ → Bank → Bool × Bank

-- syncjob.Result
pub record SyncResult : Type 0 where
  pub bank_account_id : ℕ
  pub transactions_fetched : ℕ
  pub transactions_inserted : ℕ

pub data SyncError : Type 0 where
  account_not_found account_inactive no_token no_accounts fio_error malformed : SyncError
  not_loaded not_created no_previous_max not_inserted : Failure → SyncError

-- finishRun: an error of the statement is only logged.
unfoldable pub finish_run : ℕ → String → ℕ → ℕ → Bool → Session → Session
finish_run run status fetched inserted has_error s =
    (finish_sync_fio_run run status fetched inserted has_error s).1

module _ {Bank Amount : Type 0} (client : FioClient Bank Amount) where
  abbrev pub after_seed : Bool × Bank → Fetched Amount × Bank
  after_seed (true, b) = (fetch_failed, b)
  after_seed (false, b) = client.fetch_new b

  abbrev pub retry : Fetched Amount × Bank → Fetched Amount × Bank
  retry (strong_auth_required, b) = after_seed (client.set_last_date 89 b)
  retry (fetch_failed, b) = (fetch_failed, b)
  retry (response r, b) = (response r, b)

  -- FetchNew, with one retry after the cursor has been seeded.
  unfoldable pub fetch : Bank → Fetched Amount × Bank
  fetch b = retry (client.fetch_new b)

module _ {Amount : Type 0} (format_amount : Amount → String) where
  -- The id is the table's.
  abbrev pub to_insert_params : ℕ → FioTransaction Amount → RawTransaction
  to_insert_params account t = record {
    id = 0;
    bank_account_id = account;
    fio_transaction_id = t.fio_transaction_id;
    transaction_date = t.transaction_date;
    amount = format_amount t.amount;
    currency = t.currency;
    counter_account_number = t.counter_account_number;
    counter_account_name = t.counter_account_name;
    counter_bank_code = t.counter_bank_code;
    counter_bank_name = t.counter_bank_name;
    bic = t.bic;
    variable_symbol = t.variable_symbol;
    specific_symbol = t.specific_symbol;
    constant_symbol = t.constant_symbol;
    user_identification = t.user_identification;
    message_for_recipient = t.message_for_recipient;
    transaction_type = t.transaction_type;
    executor = t.executor;
    specification = t.specification;
    comment = t.comment;
    instruction_id = t.instruction_id;
    raw_payload = t.raw_payload;
  }

  unfoldable pub insert_all : ℕ → List (FioTransaction Amount) → ℕ → Query ℕ
  insert_all account [] inserted = pure inserted
  insert_all account (t ∷ ts) inserted =
      insert_raw_transaction (to_insert_params account t) >>= λ rows.
      insert_all account ts (inserted + rows)

  unfoldable pub insert_transactions : ℕ → List (FioTransaction Amount) → Query ℕ
  insert_transactions account txs =
      in_transaction same_failure same_failure (insert_all account txs 0)

  abbrev pub write_balance : ℕ → Option String → Session → Session
  write_balance account none s = s
  write_balance account (some balance) s = (update_bank_account_balance account balance s).1

  -- The balance, unless the response is the one made up for an answer without a body.
  unfoldable pub update_balance : ℕ → FioResponse Amount → Session → Session
  update_balance account r s =
      if str_eq r.account_id "" then s else write_balance account r.closing_balance s

  abbrev pub Synced : Type 0 → Type 0
  Synced Bank = Result SyncError SyncResult × Session × Bank

  abbrev pub result : ℕ → ℕ → ℕ → SyncResult
  result account fetched inserted = record {
    bank_account_id = account;
    transactions_fetched = fetched;
    transactions_inserted = inserted;
  }

  module _ {Bank : Type 0} (client : FioClient Bank Amount) (account : ℕ) where
    -- After the insert; if it failed, the cursor goes back.
    abbrev pub sync_stored :
        ℕ → List (FioTransaction Amount) → ℕ → Result Failure ℕ × Session → Bank → Synced Bank
    sync_stored run txs max (ok inserted, s) b = (
      ok (result account (length txs) inserted),
      finish_run run "success" (length txs) inserted false s,
      b,
    )
    sync_stored run txs max (err e, s) b = (
      err (not_inserted e),
      finish_run run "failed" (length txs) 0 true s,
      (client.rewind_to max b).1,
    )

    abbrev pub sync_max :
        ℕ → List (FioTransaction Amount) → Result Failure ℕ × Session → Bank → Synced Bank
    sync_max run txs (err e, s) b =
        (err (no_previous_max e), finish_run run "failed" (length txs) 0 true s, b)
    sync_max run txs (ok max, s) b = sync_stored run txs max (insert_transactions account txs s) b

    abbrev pub sync_listed : ℕ → List (FioTransaction Amount) → Session → Bank → Synced Bank
    sync_listed run [] s b = (ok (result account 0 0), finish_run run "success" 0 0 false s, b)
    sync_listed run (t ∷ ts) s b = sync_max run (t ∷ ts) (get_max_fio_transaction_id account s) b

    abbrev pub sync_parsed :
        ℕ
        → FioResponse Amount
        → Option (List (FioTransaction Amount))
        → Session
        → Bank
        → Synced Bank
    sync_parsed run r none s b = (err malformed, finish_run run "failed" 0 0 true s, b)
    sync_parsed run r (some txs) s b = sync_listed run txs (update_balance account r s) b

    abbrev pub sync_fetched : ℕ → Session → Fetched Amount × Bank → Synced Bank
    sync_fetched run s (response r, b) = sync_parsed run r r.transactions s b
    sync_fetched run s (strong_auth_required, b) =
        (err fio_error, finish_run run "failed" 0 0 true s, b)
    sync_fetched run s (fetch_failed, b) = (err fio_error, finish_run run "failed" 0 0 true s, b)

    abbrev pub sync_created : Result Failure ℕ × Session → Bank → Synced Bank
    sync_created (err e, s) b = (err (not_created e), s, b)
    sync_created (ok run, s) b = sync_fetched run s (fetch client b)

    -- syncAccount
    unfoldable pub sync_account : Session → Bank → Synced Bank
    sync_account s b = sync_created (create_sync_fio_run account s) b

  module _ {Bank : Type 0} (client_of : String → FioClient Bank Amount) where
    abbrev pub sync_found : Result Failure (Option BankAccount) × Session → Bank → Synced Bank
    sync_found (err e, s) b = (err (not_loaded e), s, b)
    sync_found (ok none, s) b = (err account_not_found, s, b)
    sync_found (ok (some account), s) b =
        if not account.is_active
        then (err account_inactive, s, b)
        else if str_eq account.fio_token ""
        then (err no_token, s, b)
        else sync_account (client_of account.fio_token) account.id s b

    -- SyncOneAccount; `client_of` is fio.NewClient.
    unfoldable pub sync_one_account : ℕ → Session → Bank → Synced Bank
    sync_one_account id s b = sync_found (optional (get_bank_account_with_token id) s) b

    abbrev pub without_error : Synced Bank → Option SyncResult × Session × Bank
    without_error (ok r, s, b) = (some r, s, b)
    without_error (err e, s, b) = (none, s, b)

    -- One round of the loop over the accounts: a deleted account and one without a token are skipped.
    unfoldable pub sync_or_skip : BankAccount → Session → Bank → Option SyncResult × Session × Bank
    sync_or_skip account s b =
        if not account.is_active || str_eq account.fio_token ""
        then (none, s, b)
        else without_error (sync_account (client_of account.fio_token) account.id s b)

    abbrev pub add_result : Option SyncResult → List SyncResult → List SyncResult
    add_result none rs = rs
    add_result (some r) rs = r ∷ rs

    -- An account that fails does not stop the others.
    unfoldable pub sync_accounts :
        List BankAccount → Session → Bank → List SyncResult × Session × Bank
    sync_accounts [] s b = ([], s, b)
    sync_accounts (a ∷ accounts) s b =
        let (r, s', b') = sync_or_skip a s b in
        let (rs, s'', b'') = sync_accounts accounts s' b' in (add_result r rs, s'', b'')

    abbrev pub all_done :
        List SyncResult × Session × Bank → Result SyncError (List SyncResult) × Session × Bank
    all_done (rs, s, b) = (ok rs, s, b)

    abbrev pub sync_loaded :
        Result Failure (List BankAccount) × Session
        → Bank
        → Result SyncError (List SyncResult) × Session × Bank
    sync_loaded (err e, s) b = (err (not_loaded e), s, b)
    sync_loaded (ok [], s) b = (err no_accounts, s, b)
    sync_loaded (ok (a ∷ accounts), s) b = all_done (sync_accounts (a ∷ accounts) s b)

    -- RunFioSync; that there is no account at all is an error.
    unfoldable pub run_fio_sync :
        Session → Bank → Result SyncError (List SyncResult) × Session × Bank
    run_fio_sync s b = sync_loaded (list_bank_accounts_with_token s) b
