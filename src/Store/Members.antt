-- ===== src/Store/Members.antt =====
-- The statements on members, member_payment_identifiers, bank_accounts and transaction_categories
-- that processing and the handlers use (internal/db/queries.sql.go).
use bank_system_public.Base.{
  ℕ, String, Bool, true, ◌&&◌, Option, none, some, List, [], ◌∷◌, map, str_eq, ◌==◌, if◌then◌else◌,
  any_row, where_rows,
}
use bank_system_public.Calendar.{Date, before, on_or_before}
use bank_system_public.Store.Schema.{PaymentIdentifier, Db}
use bank_system_public.Store.Monad.{Query, select, select_one}

unfoldable pub member_exists : ℕ → Query Bool
member_exists n = select (λ db. any_row (λ m. m.member_number == n) db.members)

unfoldable pub category_exists : ℕ → Query Bool
category_exists id = select (λ db. any_row (λ c. c.id == id) db.categories)

abbrev pub active_accounts : Db → List String
active_accounts db = map (λ a. a.fio_account_id) (where_rows (λ a. a.is_active) db.accounts)

unfoldable pub list_active_bank_account_numbers : Query (List String)
list_active_bank_account_numbers = select active_accounts

-- `valid_to IS NULL OR valid_to >= date`
abbrev pub is_open_on : Option Date → Date → Bool
is_open_on none date = true
is_open_on (some last) date = on_or_before date last

abbrev pub claims_symbol : String → Date → PaymentIdentifier → Bool
claims_symbol symbol date mpi =
    str_eq mpi.variable_symbol symbol
    && on_or_before mpi.valid_from date
    && is_open_on mpi.valid_to date

-- ORDER BY valid_from DESC LIMIT 1; (variable_symbol, valid_from) is UNIQUE.
abbrev later_of : PaymentIdentifier → Option PaymentIdentifier → PaymentIdentifier
later_of mpi none = mpi
later_of mpi (some other) = if before mpi.valid_from other.valid_from then other else mpi

unfoldable pub latest_identifier : List PaymentIdentifier → Option PaymentIdentifier
latest_identifier [] = none
latest_identifier (mpi ∷ rest) = some (later_of mpi (latest_identifier rest))

abbrev member_number_of : Option PaymentIdentifier → Option ℕ
member_number_of none = none
member_number_of (some mpi) = some mpi.member_number

unfoldable pub find_member : String → Date → Db → Option ℕ
unfolding latest_identifier
find_member symbol date db =
    member_number_of (latest_identifier (where_rows (claims_symbol symbol date) db.identifiers))

unfoldable pub find_member_by_variable_symbol : String → Date → Query ℕ
find_member_by_variable_symbol symbol date = select_one (find_member symbol date)
