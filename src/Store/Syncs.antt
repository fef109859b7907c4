-- ===== src/Store/Syncs.antt =====
-- The statements of the synchronisation with Fio, on raw_transactions, bank_accounts and
-- sync_fio_runs (internal/db/queries.sql.go).
use bank_system_public.Base.{
  ℕ, ◌+◌, String, Bool, true, false, ◌&&◌, none, some, List, [], ◌∷◌, ◌++◌, str_eq, ◌==◌, ltb,
  if◌then◌else◌, first_row, any_row, update_rows, length, where_rows,
}
use bank_system_public.Store.Schema.{RawTransaction, BankAccount, FioRun, Db}
use bank_system_public.Store.Monad.{ok, Query, statement, select, select_one}

abbrev pub same_transaction : ℕ → ℕ → RawTransaction → Bool
same_transaction account fio_id rt =
    rt.bank_account_id == account && rt.fio_transaction_id == fio_id

-- The bank's transaction is in the table.
abbrev pub is_stored : ℕ → ℕ → List RawTransaction → Bool
is_stored account fio_id = any_row (same_transaction account fio_id)

-- ON CONFLICT (bank_account_id, fio_transaction_id) DO NOTHING. The row is the arguments, with the id
-- that the table gives it.
abbrev pub add_raw : RawTransaction → Db → Db
add_raw rt db =
    if is_stored rt.bank_account_id rt.fio_transaction_id db.raw
    then db
    else record db { raw = db.raw ++ record rt { id = db.next_id } ∷ []; next_id = db.next_id + 1 }

-- The answer is the number of rows inserted.
unfoldable pub insert_raw_transaction : RawTransaction → Query ℕ
insert_raw_transaction rt = statement (λ db.
    ok (if is_stored rt.bank_account_id rt.fio_transaction_id db.raw then 0 else 1, add_raw rt db))

-- COALESCE(MAX(fio_transaction_id), 0)
unfoldable pub max_fio_id : ℕ → List RawTransaction → ℕ
max_fio_id account [] = 0
max_fio_id account (rt ∷ rts) =
    let rest = max_fio_id account rts in
    if rt.bank_account_id == account && ltb rest rt.fio_transaction_id
    then rt.fio_transaction_id
    else rest

unfoldable pub get_max_fio_transaction_id : ℕ → Query ℕ
get_max_fio_transaction_id account = select (λ db. max_fio_id account db.raw)

abbrev new_run : ℕ → ℕ → FioRun
new_run id account = record {
  id = id;
  bank_account_id = account;
  status = "running";
  transactions_fetched = none;
  transactions_inserted = none;
  has_error = false;
}

-- The answer is the id of the new row.
unfoldable pub create_sync_fio_run : ℕ → Query ℕ
create_sync_fio_run account = statement (λ db. ok (
  db.next_id,
  record db { fio_runs = db.fio_runs ++ new_run db.next_id account ∷ []; next_id = db.next_id + 1 },
))

abbrev finished : String → ℕ → ℕ → Bool → FioRun → FioRun
finished status fetched inserted has_error run = record run {
  status = status;
  transactions_fetched = some fetched;
  transactions_inserted = some inserted;
  has_error = has_error;
}

unfoldable pub finish_sync_fio_run : ℕ → String → ℕ → ℕ → Bool → Query (Unit {0})
finish_sync_fio_run id status fetched inserted has_error = statement (λ db. ok (
  tt,
  record db {
    fio_runs =
        update_rows (λ r. r.id == id) (finished status fetched inserted has_error) db.fio_runs;
  },
))

abbrev pub is_running : FioRun → Bool
is_running run = str_eq run.status "running"

abbrev pub failed_run : FioRun → FioRun
failed_run run = record run { status = "failed"; has_error = true }

-- The answer is the number of rows changed.
unfoldable pub fail_stale_sync_fio_runs : Query ℕ
fail_stale_sync_fio_runs = statement (λ db. ok (
  length (where_rows is_running db.fio_runs),
  record db { fio_runs = update_rows is_running failed_run db.fio_runs },
))

unfoldable pub update_bank_account_balance : ℕ → String → Query (Unit {0})
update_bank_account_balance id balance = statement (λ db. ok (
  tt,
  record db {
    accounts = update_rows (λ a. a.id == id) (λ a. record a { balance = some balance }) db.accounts;
  },
))

unfoldable pub get_bank_account_with_token : ℕ → Query BankAccount
get_bank_account_with_token id = select_one (λ db. first_row (λ a. a.id == id) db.accounts)

unfoldable pub list_bank_accounts_with_token : Query (List BankAccount)
list_bank_accounts_with_token = select (λ db. db.accounts)
