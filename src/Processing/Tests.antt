-- ===== src/Processing/Tests.antt =====
-- Runs on concrete data, and the theorems of this part at such data.
use bank_system_public.Base.{
  ℕ, String, ◌≡◌, refl, ◌↔◌, true, false, none, some, [], ◌∷◌, length, where_rows,
}
use bank_system_public.Base.Int.{pos}
use bank_system_public.Calendar.{Date, on_or_before}
use bank_system_public.Store.{
  Db, PaymentIdentifier, RawTransaction, CategorizationRule, Session, ok, calm, unprocessed,
  ProcessedTransaction, candidate_of, is_set_by_hand, claims_symbol, find_member, latest_identifier,
}
use bank_system_public.Processing.{
  normalize_variable_symbol, run, categorize, matches_pattern, apply_rule, process_one, Outcome,
  plain_outcome, member_outcome,
}
use bank_system_public.Processing.Reapply.{write_outcome, reapply_rule}
use bank_system_public.Processing.Reapply.Writes.{Reported, write_outcome-Reported}
use bank_system_public.Processing.Reapply.Protected.{reapply_rule-by_hand}
use bank_system_public.Processing.Symbols.{padded, normalize-padded, normalize_idem}
use bank_system_public.Processing.Matching.{PatternHolds, matches_pattern_iff}
use bank_system_public.Processing.Lookup.{IsLatest, find_member-IsLatest}
use bank_system_public.Processing.FirstMatch.{categorize-first_match, Decides, categorize-Decides}
use bank_system_public.Processing.Atomicity.{Processes, process_one-Processes}
use bank_system_public.Processing.Batch.{Accounts, run-Accounts}
use bank_system_public.Processing.Drain.{run-drains}

-- In place of unicode.ToLower; the texts here have lower-case letters only.
abbrev unchanged_letter : ℕ → ℕ
unchanged_letter c = c

abbrev may_31 : Date
may_31 = record { year = 2026; month = 5; day = 31 }

abbrev payment : ℕ → String → RawTransaction
payment id symbol = record {
  id = id;
  bank_account_id = 1;
  fio_transaction_id = id;
  transaction_date = record { year = 2026; month = 5; day = 12 };
  amount = "150.00";
  currency = "CZK";
  counter_account_number = none;
  counter_account_name = none;
  counter_bank_code = none;
  counter_bank_name = none;
  bic = none;
  variable_symbol = some symbol;
  specific_symbol = none;
  constant_symbol = none;
  user_identification = none;
  message_for_recipient = none;
  transaction_type = none;
  executor = none;
  specification = none;
  comment = some "dues";
  instruction_id = none;
  raw_payload = "";
}

abbrev pub rule : ℕ → String → CategorizationRule
rule id kind = record {
  id = id;
  priority = pos id;
  kind = kind;
  enabled = true;
  counter_account_number = none;
  variable_symbol = none;
  constant_symbol = none;
  text_contains = some "du";
  transaction_type_contains = none;
  direction = none;
  note = none;
  category_id = 1;
}

abbrev identifier : PaymentIdentifier
identifier = record {
  member_number = 7;
  variable_symbol = "7";
  valid_from = record { year = 2025; month = 1; day = 1 };
  valid_to = none;
}

abbrev db : Db
db = record {
  members = [];
  identifiers = identifier ∷ [];
  accounts = [];
  raw = payment 1 "007" ∷ payment 2 "8" ∷ [];
  processed = [];
  coverage = [];
  waivers = [];
  rules = rule 3 "member_variable_symbol" ∷ [];
  categories = [];
  fio_runs = [];
  orca_runs = [];
  budgets = [];
  budget_lines = [];
  line_categories = [];
  auditor_reports = [];
  audit_logs = [];
  next_id = 10;
  now = 0;
  today = may_31;
}

normalize-padded_example : normalize_variable_symbol (padded 2 "7") ≡ normalize_variable_symbol "7"
normalize-padded_example = normalize-padded 2 "7"

normalize_idem_example :
    normalize_variable_symbol (normalize_variable_symbol "007") ≡ normalize_variable_symbol "007"
normalize_idem_example = normalize_idem "007"

normalize-padded_run : normalize_variable_symbol "007" ≡ "7"
unfolding normalize_variable_symbol
normalize-padded_run = refl

matches_pattern_iff_example :
    (matches_pattern unchanged_letter (rule 3 "pattern") (payment 1 "007") "incoming" ≡ true)
    ↔ PatternHolds unchanged_letter (rule 3 "pattern") (payment 1 "007") "incoming"
matches_pattern_iff_example =
    matches_pattern_iff unchanged_letter (rule 3 "pattern") (payment 1 "007") "incoming"

matches_run :
    matches_pattern unchanged_letter (rule 3 "pattern") (payment 1 "007") "incoming" ≡ true
unfolding matches_pattern
matches_run = refl

find_member-IsLatest_example :
    (mpi : PaymentIdentifier) × (mpi.member_number ≡ 7)
    × IsLatest (claims_symbol "7" may_31) mpi db.identifiers
unfolding find_member on_or_before latest_identifier
find_member-IsLatest_example = find_member-IsLatest "7" may_31 db 7 refl

categorize-first_match_example :
    categorize unchanged_letter
      (payment 2 "8")
      "incoming"
      []
      (rule 3 "own_account" ∷ rule 4 "pattern" ∷ rule 5 "pattern" ∷ [])
      (calm db)
    ≡ (ok (plain_outcome (rule 4 "pattern")), calm db)
unfolding apply_rule matches_pattern
categorize-first_match_example =
    categorize-first_match unchanged_letter (payment 2 "8") "incoming" [] db
      (rule 3 "own_account" ∷ []) (rule 4 "pattern") (rule 5 "pattern" ∷ [])
      (plain_outcome (rule 4 "pattern")) (refl, tt) refl

categorize-Decides_example :
    (o : Outcome) × (categorize unchanged_letter
        (payment 2 "8")
        "incoming"
        []
        (rule 3 "own_account" ∷ [])
        (calm db)
      ≡ (ok o, calm db))
    × Decides unchanged_letter (payment 2 "8") "incoming" [] db (rule 3 "own_account" ∷ []) o
categorize-Decides_example =
    categorize-Decides unchanged_letter (payment 2 "8") "incoming" [] db (rule 3 "own_account" ∷ [])

-- The second statement fails: the insert of the coverage.
abbrev failing : Session
failing = record { db = db; faults = false ∷ false ∷ false ∷ true ∷ [] }

process_one-Processes_example :
    Processes unchanged_letter (payment 1 "007") (rule 3 "member_variable_symbol" ∷ []) [] failing (
      process_one unchanged_letter
        (payment 1 "007")
        (rule 3 "member_variable_symbol" ∷ [])
        []
        failing)
process_one-Processes_example =
    process_one-Processes unchanged_letter (payment 1 "007") (rule 3 "member_variable_symbol" ∷ [])
      [] failing

run-Accounts_example : Accounts failing.db (run unchanged_letter failing)
run-Accounts_example = run-Accounts unchanged_letter failing

run-drains_example :
    (last : Db) × (run unchanged_letter (calm db) ≡ (
      ok (record { transactions_processed = length (unprocessed db); transactions_failed = 0 }),
      calm last,
    ))
    × (last.raw ≡ db.raw)
    × (unprocessed last ≡ [])
run-drains_example = run-drains unchanged_letter db ((refl, tt), (tt, tt))

abbrev stored_payment : ProcessedTransaction
stored_payment = record {
  id = 10;
  raw_transaction_id = 1;
  member_number = none;
  direction = "incoming";
  matched_by = none;
  is_public_visible = false;
  admin_comment = none;
  category_set_manually = false;
  categorization_rule_id = none;
  category_id = 1;
}

-- One transaction is open to re-applying, the other is set by hand.
abbrev later_db : Db
later_db = record db {
  processed =
      stored_payment
      ∷ record stored_payment { id = 11; raw_transaction_id = 2; category_set_manually = true }
      ∷ [];
}

write_outcome-Reported_example :
    let (w, s') =
      write_outcome
        (candidate_of stored_payment (payment 1 "007"))
        (member_outcome (rule 3 "member_variable_symbol") 7)
        (calm later_db) in
    Reported
      (candidate_of stored_payment (payment 1 "007"))
      (member_outcome (rule 3 "member_variable_symbol") 7)
      later_db
      s'.db
      w.changed
      w.failure
write_outcome-Reported_example =
    write_outcome-Reported (candidate_of stored_payment (payment 1 "007"))
      (member_outcome (rule 3 "member_variable_symbol") 7) (calm later_db)

reapply_rule-by_hand_example :
    where_rows is_set_by_hand
      (reapply_rule unchanged_letter 3
        (record { year = 2026; month = 1; day = 1 })
        (calm later_db)).1.db.processed
    ≡ where_rows is_set_by_hand later_db.processed
reapply_rule-by_hand_example =
    reapply_rule-by_hand unchanged_letter 3 (record { year = 2026; month = 1; day = 1 })
      (calm later_db)
