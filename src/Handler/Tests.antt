-- ===== src/Handler/Tests.antt =====
-- The theorems on the handlers, at concrete requests.
use bank_system_public.Base.{Option, ℕ, String, ◌≡◌, refl, true, false, none, some, [], ◌∷◌, arith}
use bank_system_public.Base.Int.{pos}
use bank_system_public.CategoryId
use bank_system_public.Auth.{Claims, has_role, roles_of}
use bank_system_public.Handler.Rules.{handle_reapply_rule}
use bank_system_public.Handler.Rules.ClosedYears.{Untouched, handle_reapply_rule-closed_years}
use bank_system_public.Calendar.{before, Date, MonthRef, month_index}
use bank_system_public.Store.{Db, Session, RawTransaction, ProcessedTransaction, ok, calm}
use bank_system_public.Store.{list_members_missing_payment, missing_rows}
use bank_system_public.Store.Waivers.Missing.{Lists, list_members_missing_payment-Lists}
use bank_system_public.Handler.Waivers.{
  WaiveRequest, up_to, no_months, waive_payment, unwaive_payment,
}
use bank_system_public.Handler.Waivers.Range.{Waives, month_list, waive_payment-Waives}
use bank_system_public.Handler.Waivers.Undo.{Undone, unwaive_payment-Undone, unwaive-waive}
use bank_system_public.Handler.Assignment.{
  AssignTransactionRequest, assign_transaction, unassign_transaction,
}
use bank_system_public.Handler.Assignment.Assigned.{AssignEnds, assign_transaction-AssignEnds}
use bank_system_public.Handler.Assignment.Unassigned.{
  UnassignEnds, unassign_transaction-UnassignEnds,
}

-- In place of strings.TrimSpace.
abbrev trim : String → String
trim text = text

abbrev date : ℕ → ℕ → ℕ → Date
date y m d = record { year = y; month = m; day = d }

abbrev month : ℕ → ℕ → MonthRef
month y m = record { year = y; month = m }

abbrev payment : RawTransaction
payment = record {
  id = 1;
  bank_account_id = 1;
  fio_transaction_id = 1;
  transaction_date = date 2026 5 12;
  amount = "150.00";
  currency = "CZK";
  counter_account_number = none;
  counter_account_name = none;
  counter_bank_code = none;
  counter_bank_name = none;
  bic = none;
  variable_symbol = none;
  specific_symbol = none;
  constant_symbol = none;
  user_identification = none;
  message_for_recipient = none;
  transaction_type = none;
  executor = none;
  specification = none;
  comment = none;
  instruction_id = none;
  raw_payload = "";
}

abbrev processed : ProcessedTransaction
processed = record {
  id = 2;
  raw_transaction_id = 1;
  member_number = none;
  direction = "incoming";
  matched_by = none;
  is_public_visible = false;
  admin_comment = none;
  category_set_manually = false;
  categorization_rule_id = none;
  category_id = CategoryId.other_income;
}

-- One member, who has paid February 2026, and one transaction without a member.
abbrev db : Db
db = record {
  members =
      record {
        member_number = 7;
        fee_start_date = some (date 2026 1 1);
        fee_stop_date = none;
        active = true;
        sub = none;
        workplace_executive_committee_sub = none;
      }
      ∷ [];
  identifiers = [];
  accounts = [];
  raw = payment ∷ [];
  processed = processed ∷ [];
  coverage = record { processed_transaction_id = 9; member_number = 7; covers = month 2026 2 } ∷ [];
  waivers = [];
  rules = [];
  categories =
      record {
        id = CategoryId.membership_fee;
        name = "membership_fee";
        is_mandatory = true;
        parent_id = none;
      }
      ∷ record {
        id = CategoryId.other_income;
        name = "other_income";
        is_mandatory = true;
        parent_id = none;
      }
      ∷ [];
  fio_runs = [];
  orca_runs = [];
  budgets = [];
  budget_lines = [];
  line_categories = [];
  auditor_reports = [];
  audit_logs = [];
  next_id = 10;
  now = 0;
  today = date 2026 6 1;
}

-- January to March 2026.
abbrev first_quarter : WaiveRequest
first_quarter = record {
  year = pos 2026;
  month = pos 1;
  reason = "hardship";
  end_year = some (pos 2026);
  end_month = some (pos 3);
}

-- The third round of the loop fails when it reads the coverage.
abbrev failing : Session
failing = record { db = db; faults = false ∷ false ∷ false ∷ false ∷ false ∷ true ∷ [] }

waive_payment-Waives_example :
    Waives 7 "hardship"
      (month_list 3 24313)
      (no_months 7)
      db
      (waive_payment trim 2027 (some (pos 7)) (some first_quarter) failing)
unfolding month_index
waive_payment-Waives_example =
    waive_payment-Waives trim 2027 (some (pos 7)) first_quarter failing 7
      (up_to (month 2026 1) (month 2026 3)) refl refl

unwaive_payment-Undone_example :
    Undone 7
      (month 2026 1)
      db
      (unwaive_payment (some (pos 7)) (some (pos 2026)) (some (pos 1)) (calm db))
unwaive_payment-Undone_example =
    unwaive_payment-Undone (some (pos 7)) (some (pos 2026)) (some (pos 1)) (calm db) 7
      (month 2026 1) refl refl

abbrev january : WaiveRequest
january = record {
  year = pos 2026;
  month = pos 1;
  reason = "hardship";
  end_year = none;
  end_month = none;
}

unwaive-waive_example :
    unwaive_payment
      (some (pos 7))
      (some (pos 2026))
      (some (pos 1))
      (waive_payment trim 2027 (some (pos 7)) (some january) (calm db)).1
    ≡ (ok tt, calm db)
unwaive-waive_example =
    unwaive-waive trim 2027 (some (pos 7)) (some (pos 2026)) (some (pos 1)) january db 7
      (month 2026 1) refl refl refl (record { first = omega arith; last = omega arith }) refl refl
      refl

-- The member of a category that the request leaves out: the membership fee.
abbrev match_member : AssignTransactionRequest
match_member = record {
  member_number = some (pos 7);
  category_id = none;
  covers = [];
  admin_comment = some "";
}

assign_transaction-AssignEnds_example :
    AssignEnds 2 match_member db
      (assign_transaction 2027 (some (pos 2)) (some match_member) (calm db))
assign_transaction-AssignEnds_example =
    assign_transaction-AssignEnds 2027 (some (pos 2)) match_member (calm db) 2 refl

unassign_transaction-UnassignEnds_example :
    UnassignEnds 2 db (unassign_transaction (some (pos 2)) (calm db))
unassign_transaction-UnassignEnds_example =
    unassign_transaction-UnassignEnds (some (pos 2)) (calm db) 2 refl

list_members_missing_payment-Lists_example :
    Lists db (month 2026 3) (list_members_missing_payment (month 2026 3) (calm db))
unfolding month_index
list_members_missing_payment-Lists_example =
    list_members_missing_payment-Lists (month 2026 3) (calm db) (ground arith)

-- The member owes January, March and April, and has paid before.
list_members_missing_payment-Lists_run :
    (list_members_missing_payment (month 2026 3) (calm db)).0
    ≡ ok (record { member_number = 7; total_missed_months = 3; has_ever_paid = true } ∷ [])
unfolding list_members_missing_payment missing_rows
list_members_missing_payment-Lists_run = refl

-- A caller without roles.
abbrev member_claims : Claims
member_claims = record { subject = "member"; email = "member"; resource_access = [] }

abbrev no_date : String → Option Date
no_date text = none

-- In 2027, re-applying a rule to a payment of 2026.
handle_reapply_rule-closed_years_example :
    Untouched 2 db
      (handle_reapply_rule
        (λ c. c)
        no_date
        2027
        "bank"
        (some (pos 5))
        (some "")
        (some member_claims)
        (calm db)).1.db
unfolding has_role roles_of before
handle_reapply_rule-closed_years_example =
    handle_reapply_rule-closed_years (λ c. c) no_date 2027 "bank" (some (pos 5)) (some "")
      member_claims (calm db) 2 refl ((λ _. refl), tt)
