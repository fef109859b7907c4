-- ===== src/Sync/Tests.antt =====
-- The theorems on the synchronisation, at a concrete bank.
use bank_system_public.Base.{
  ℕ, zero, suc, ◌+◌, ◌≤◌, ◌<◌, String, ◌≡◌, refl, ◌∙◌, ap, true, false, Option, none, some, List,
  [], ◌∷◌, arith, ◌==◌, any_row,
}
use bank_system_public.Base.{false, if◌then◌else◌}
use bank_system_public.Sync.Orca.{OrcaMember, run_orca_sync}
use bank_system_public.Sync.Orca.Synced as OrcaSynced
use bank_system_public.Sync.Orca.Synced.{run_orca_sync-OrcaEnds}
use bank_system_public.Sync.Stale.{StaleEnds, fail_stale_runs, fail_stale_runs-StaleEnds}
use mathlib.Core.Path.{subst}
use bank_system_public.Calendar.{Date}
use bank_system_public.Store.{
  BankAccount, ok, insert_raw_transaction, in_transaction, Db, calm, max_fio_id,
}
use bank_system_public.Sync.Accounts.{RunEnds, run_fio_sync-RunEnds}
use bank_system_public.Sync.{
  run_fio_sync, FioTransaction, FioResponse, FioClient, insert_all, response, insert_transactions,
  sync_account,
}
use bank_system_public.Sync.Batch.{
  BatchEnds, insert_transactions-BatchEnds, insert_transactions_idem,
}
use bank_system_public.Sync.Runs.{sent, SyncEnds, sync_account-SyncEnds}
use bank_system_public.Sync.Cursor.{has, IsDocumented, Lossless, sync_account-Lossless}

abbrev today : Date
today = record { year = 2026; month = 6; day = 1 }

-- An amount is its text.
abbrev as_text : String → String
as_text amount = amount

abbrev payment : ℕ → FioTransaction String
payment id = record {
  fio_transaction_id = id;
  transaction_date = today;
  amount = "150.00";
  currency = "CZK";
  counter_account_number = none;
  counter_account_name = none;
  counter_bank_code = none;
  counter_bank_name = none;
  bic = none;
  variable_symbol = some "7";
  specific_symbol = none;
  constant_symbol = none;
  user_identification = none;
  message_for_recipient = none;
  transaction_type = none;
  executor = none;
  specification = none;
  comment = none;
  instruction_id = none;
  raw_payload = "{}";
}

abbrev db : Db
db = record {
  members = [];
  identifiers = [];
  accounts = [];
  raw = [];
  processed = [];
  coverage = [];
  waivers = [];
  rules = [];
  categories = [];
  fio_runs = [];
  orca_runs = [];
  budgets = [];
  budget_lines = [];
  line_categories = [];
  auditor_reports = [];
  audit_logs = [];
  next_id = 10;
  now = 0;
  today = today;
}

-- A bank whose state is its cursor: it sends the same two payments each time.
abbrev bank : FioClient ℕ String
bank = record {
  fetch_new = λ cursor. (
    response (record {
      account_id = "123";
      closing_balance = some "300.00";
      transactions = some (payment 1 ∷ payment 2 ∷ payment 1 ∷ []);
    }),
    2,
  );
  set_last_date = λ days cursor. (false, 0);
  rewind_to = λ id cursor. (false, id);
}

insert_transactions-BatchEnds_example :
    BatchEnds as_text 1
      (payment 1 ∷ payment 2 ∷ [])
      db
      (insert_transactions as_text 1 (payment 1 ∷ payment 2 ∷ []) (calm db))
insert_transactions-BatchEnds_example =
    insert_transactions-BatchEnds as_text 1 (payment 1 ∷ payment 2 ∷ []) (calm db)

sync_account-SyncEnds_example :
    SyncEnds as_text bank 1 0 db (sync_account as_text bank 1 (calm db) 0)
sync_account-SyncEnds_example = sync_account-SyncEnds as_text bank 1 (calm db) 0

-- A bank with two payments: it sends those after its cursor.
abbrev sent_after : ℕ → List (FioTransaction String)
sent_after zero = payment 1 ∷ payment 2 ∷ []
sent_after (suc zero) = payment 2 ∷ []
sent_after (suc (suc n)) = []

abbrev ledger_bank : FioClient ℕ String
ledger_bank = record {
  fetch_new = λ cursor. (
    response (record {
      account_id = "123";
      closing_balance = some "300.00";
      transactions = some (sent_after cursor);
    }),
    cursor + 2,
  );
  set_last_date = λ days cursor. (false, 0);
  rewind_to = λ id cursor. (false, id);
}

texts_of : Option (List (FioTransaction String)) → List (FioTransaction String)
texts_of none = []
texts_of (some txs) = txs

ledger_bank-sends :
    (b : ℕ) (r : FioResponse String) (txs : List (FioTransaction String)) (id : ℕ)
    → (ledger_bank.fetch_new b).0 ≡ response r
    → r.transactions ≡ some txs
    → has (1 ∷ 2 ∷ []) id ≡ true
    → b < id
    → id ≤ b + 2
    → any_row (λ t. t.fio_transaction_id == id) txs ≡ true
unfolding texts_of
ledger_bank-sends b r txs id e h i lo hi =
    subst (λ ts. any_row (λ t. t.fio_transaction_id == id) ts ≡ true) same (known b lo)
  where
    same : sent_after b ≡ txs
    same = ap texts_of (ap (sent as_text ledger_bank 1) e ∙ h)

    known : (n : ℕ) → n < id → any_row (λ t. t.fio_transaction_id == id) (sent_after n) ≡ true
    known zero l = ground arith
    known (suc zero) l = ground arith
    known (suc (suc n)) l = ground arith

ledger_bank-IsDocumented : IsDocumented ledger_bank (λ cursor. cursor) (1 ∷ 2 ∷ [])
ledger_bank-IsDocumented = record { sends = ledger_bank-sends; goes_back = λ id b e. refl }

sync_account-Lossless_example :
    Lossless ledger_bank
      (λ cursor. cursor)
      (1 ∷ 2 ∷ [])
      1
      as_text
      0
      (sync_account as_text ledger_bank 1 (calm db) 0)
unfolding max_fio_id
sync_account-Lossless_example =
    sync_account-Lossless ledger_bank (λ cursor. cursor) (1 ∷ 2 ∷ []) 1 as_text
      ledger_bank-IsDocumented (calm db) 0 (λ id i le. ground arith) (λ id i le. ground arith)
      (λ id b. refl)

insert_transactions_idem_example :
    insert_transactions as_text 1
      (payment 1 ∷ payment 2 ∷ [])
      (calm (insert_transactions as_text 1 (payment 1 ∷ payment 2 ∷ []) (calm db)).1.db)
    ≡ (ok 0, calm (insert_transactions as_text 1 (payment 1 ∷ payment 2 ∷ []) (calm db)).1.db)
unfolding insert_transactions insert_all insert_raw_transaction in_transaction
insert_transactions_idem_example =
    insert_transactions_idem as_text 1 (payment 1 ∷ payment 2 ∷ []) (calm db)
      (insert_transactions as_text 1 (payment 1 ∷ payment 2 ∷ []) (calm db)).1 2 refl

abbrev own_account : BankAccount
own_account = record {
  id = 1;
  fio_account_id = "123";
  fio_token = "token";
  is_active = true;
  balance = none;
  color = none;
}

-- The second account has no token and is skipped.
abbrev accounts_db : Db
accounts_db = record db {
  accounts = own_account ∷ record own_account { id = 2; fio_token = "" } ∷ [];
}

run_fio_sync-RunEnds_example :
    RunEnds as_text
      (λ token. bank)
      accounts_db
      (run_fio_sync as_text (λ token. bank) (calm accounts_db) 0)
run_fio_sync-RunEnds_example = run_fio_sync-RunEnds as_text (λ token. bank) (calm accounts_db) 0

-- Two members, the second one without a fee start.
abbrev orca_member : ℕ → Option Date → OrcaMember
orca_member number start = record {
  member_number = number;
  fee_start_date = start;
  fee_stop_date = none;
  active = true;
  sub = none;
  workplace_executive_committee_sub = none;
}

abbrev no_uuid : String → Option ℕ
no_uuid text = none

-- In place of strconv.Itoa.
abbrev tally_text : ℕ → String
tally_text n = if n == 7 then "7" else "8"

run_orca_sync-OrcaEnds_example :
    OrcaSynced.OrcaEnds no_uuid tally_text (orca_member 7 (some today) ∷ orca_member 8 none ∷ []) (
      run_orca_sync no_uuid tally_text
        (some (orca_member 7 (some today) ∷ orca_member 8 none ∷ []))
        (calm db))
run_orca_sync-OrcaEnds_example =
    run_orca_sync-OrcaEnds no_uuid tally_text (orca_member 7 (some today) ∷ orca_member 8 none ∷ [])
      (calm db) (refl, (refl, tt))

-- A server that died during a synchronisation.
abbrev interrupted : Db
interrupted = record db {
  orca_runs =
      record {
        id = 1;
        status = "running";
        members_fetched = none;
        members_upserted = none;
        has_error = false;
      }
      ∷ [];
}

fail_stale_runs-StaleEnds_example : StaleEnds interrupted (fail_stale_runs (calm interrupted))
fail_stale_runs-StaleEnds_example = fail_stale_runs-StaleEnds (calm interrupted)
