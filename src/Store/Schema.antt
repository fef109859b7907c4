-- ===== src/Store/Schema.antt =====
-- The tables of the database (migrations/, internal/db/models.go). A table is the list of its rows
-- in the order of their ids. NULL is `none`; a category id is the 128-bit number of its UUID.
use bank_system_public.Base.{ℕ, String, Bool, Option, List, []}
use bank_system_public.Base.Int.{ℤ}
use bank_system_public.Calendar.{Date, MonthRef}

pub record Member : Type 0 where
  pub member_number : ℕ
  pub fee_start_date : Option Date
  pub fee_stop_date : Option Date
  pub active : Bool
  pub sub : Option ℕ
  pub workplace_executive_committee_sub : Option ℕ

-- member_payment_identifiers
pub record PaymentIdentifier : Type 0 where
  pub member_number : ℕ
  pub variable_symbol : String
  pub valid_from : Date
  pub valid_to : Option Date

-- `is_active` is `deleted_at IS NULL`; an undecrypted token reads as its clear text.
pub record BankAccount : Type 0 where
  pub id : ℕ
  pub fio_account_id : String
  pub fio_token : String
  pub is_active : Bool
  pub balance : Option String
  pub color : Option String

pub record RawTransaction : Type 0 where
  pub id : ℕ
  pub bank_account_id : ℕ
  pub fio_transaction_id : ℕ
  pub transaction_date : Date
  pub amount : String
  pub currency : String
  pub counter_account_number : Option String
  pub counter_account_name : Option String
  pub counter_bank_code : Option String
  pub counter_bank_name : Option String
  pub bic : Option String
  pub variable_symbol : Option String
  pub specific_symbol : Option String
  pub constant_symbol : Option String
  pub user_identification : Option String
  pub message_for_recipient : Option String
  pub transaction_type : Option String
  pub executor : Option String
  pub specification : Option String
  pub comment : Option String
  pub instruction_id : Option String
  pub raw_payload : String

pub record ProcessedTransaction : Type 0 where
  pub id : ℕ
  pub raw_transaction_id : ℕ
  pub member_number : Option ℕ
  pub direction : String
  pub matched_by : Option String
  pub is_public_visible : Bool
  pub admin_comment : Option String
  pub category_set_manually : Bool
  pub categorization_rule_id : Option ℕ
  pub category_id : ℕ

-- payment_coverage
pub record Coverage : Type 0 where
  pub processed_transaction_id : ℕ
  pub member_number : ℕ
  pub covers : MonthRef

-- payment_waivers
pub record Waiver : Type 0 where
  pub member_number : ℕ
  pub covers : MonthRef
  pub reason : String
  pub created_at : ℕ

pub record CategorizationRule : Type 0 where
  pub id : ℕ
  pub priority : ℤ
  pub kind : String
  pub enabled : Bool
  pub counter_account_number : Option String
  pub variable_symbol : Option String
  pub constant_symbol : Option String
  pub text_contains : Option String
  pub transaction_type_contains : Option String
  pub direction : Option String
  pub note : Option String
  pub category_id : ℕ

-- transaction_categories
pub record Category : Type 0 where
  pub id : ℕ
  pub name : String
  pub is_mandatory : Bool
  pub parent_id : Option ℕ

-- sync_fio_runs. `has_error` is whether error_message is set.
pub record FioRun : Type 0 where
  pub id : ℕ
  pub bank_account_id : ℕ
  pub status : String
  pub transactions_fetched : Option ℕ
  pub transactions_inserted : Option ℕ
  pub has_error : Bool

-- sync_orca_runs
pub record OrcaRun : Type 0 where
  pub id : ℕ
  pub status : String
  pub members_fetched : Option ℕ
  pub members_upserted : Option ℕ
  pub has_error : Bool

-- budgets
pub record Budget : Type 0 where
  pub year : ℕ
  pub note : Option String
  pub created_at : ℕ

-- budget_lines; an amount NUMERIC(14,2) is its number of hundredths.
pub record BudgetLine : Type 0 where
  pub id : ℕ
  pub budget_year : ℕ
  pub kind : String
  pub group_name : Option String
  pub name : String
  pub budgeted_amount : ℕ
  pub sort_order : ℤ
  pub note : Option String

-- budget_line_categories
pub record BudgetLineCategory : Type 0 where
  pub budget_line_id : ℕ
  pub budget_year : ℕ
  pub category_id : ℕ

-- budget_auditor_reports; the content is a list of bytes.
pub record BudgetAuditorReport : Type 0 where
  pub budget_year : ℕ
  pub content : List ℕ
  pub uploaded_at : ℕ

-- audit_logs
pub record AuditLog : Type 0 where
  pub id : ℕ
  pub created_at : ℕ
  pub actor_sub : String
  pub actor_email : Option String
  pub category : String
  pub action : String
  pub method : String
  pub route : String
  pub path : String
  pub status_code : ℕ

-- The database. `next_id` serves every BIGSERIAL column, and `now` is the clock of now() and
-- CURRENT_DATE.
pub record Db : Type 0 where
  pub members : List Member
  pub identifiers : List PaymentIdentifier
  pub accounts : List BankAccount
  pub raw : List RawTransaction
  pub processed : List ProcessedTransaction
  pub coverage : List Coverage
  pub waivers : List Waiver
  pub rules : List CategorizationRule
  pub categories : List Category
  pub fio_runs : List FioRun
  pub orca_runs : List OrcaRun
  pub budgets : List Budget
  pub budget_lines : List BudgetLine
  pub line_categories : List BudgetLineCategory
  pub auditor_reports : List BudgetAuditorReport
  pub audit_logs : List AuditLog
  pub next_id : ℕ
  pub now : ℕ
  pub today : Date

-- A database without rows, at the start of the year 2026.
abbrev pub empty_db : Db
empty_db = record {
  members = [];
  identifiers = [];
  accounts = [];
  raw = [];
  processed = [];
  coverage = [];
  waivers = [];
  rules = [];
  categories = [];
  fio_runs = [];
  orca_runs = [];
  budgets = [];
  budget_lines = [];
  line_categories = [];
  auditor_reports = [];
  audit_logs = [];
  next_id = 1;
  now = 0;
  today = record { year = 2026; month = 1; day = 1 };
}
