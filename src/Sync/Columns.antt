-- ===== src/Sync/Columns.antt =====
-- internal/fio/types.go: how the rows of an answer of Fio become transactions. The parsing of JSON
-- values, dates and floats is outside: it is a parameter, as is json.Marshal.
pub mod Row
pub mod Read
mod Tests
use bank_system_public.Base.{
  ℕ, suc, String, Bool, ◌||◌, Option, none, some, List, [], ◌∷◌, str_eq, if◌then◌else◌,
}
use bank_system_public.Calendar.{Date}
use bank_system_public.Store.{Result, ok, err}
use bank_system_public.Base.Int.{ℤ}
use bank_system_public.Sync.{FioTransactionOf}

-- fioColumn; `value` is the text of its JSON value, empty if there is none.
pub record FioColumn : Type 0 where
  pub value : String
  pub name : String
  pub id : ℕ

-- rawTransaction: the columns by name (`none`: no such key, `some none`: a null column).
abbrev pub RawRow : Type 0
RawRow = String → Option (Option FioColumn)

-- What is wrong with a row.
pub data RowError : Type 0 where
  missing_id missing_date bad_date missing_amount missing_currency not_marshaled : RowError

abbrev pub is_json_null : String → Bool
is_json_null raw = str_eq raw "" || str_eq raw "null"

-- The value of a column that is neither missing nor null.
abbrev pub present : Option (Option FioColumn) → Option String
present none = none
present (some none) = none
present (some (some c)) = if is_json_null c.value then none else some c.value

-- A value that is not a JSON string is its literal text.
abbrev pub text_or_literal : Option String → String → String
text_or_literal none raw = raw
text_or_literal (some s) raw = s

abbrev pub and_then : {A B : Type 0} → Option A → (A → Option B) → Option B
and_then none f = none
and_then (some a) f = f a

-- `if !ok { return Transaction{}, ... }`
abbrev pub needs :
    {A B : Type 0} → Option A → RowError → (A → Result RowError B) → Result RowError B
needs none e f = err e
needs (some a) e f = f a

-- What the JSON and time packages do: json.Unmarshal into a string and into a float, int64 of a
-- float, time.Parse with fioDateLayout, Format and time.Parse with "2006-01-02", json.Marshal.
pub record Parsing (Amount Time : Type 0) : Type 0 where
  pub read_string : String → Option String
  pub read_float : String → Option Amount
  pub to_int64 : Amount → ℤ
  pub parse_date : String → Option Time
  pub format_day : Time → String
  pub parse_day : String → Option Date
  pub marshal : RawRow → Option String

module _ {Amount Time : Type 0} (go : Parsing Amount Time) where
  abbrev pub get_string : RawRow → String → Option String
  get_string row col =
      and_then (present (row col)) (λ raw. some (text_or_literal (go.read_string raw) raw))

  abbrev pub get_float64 : RawRow → String → Option Amount
  get_float64 row col = and_then (present (row col)) go.read_float

  abbrev pub get_int64 : RawRow → String → Option ℤ
  get_int64 row col = and_then (get_float64 row col) (λ f. some (go.to_int64 f))

  abbrev pub row_transaction :
      RawRow → ℤ → Date → Amount → String → String → FioTransactionOf ℤ Amount
  row_transaction row id date amount currency payload = record {
    fio_transaction_id = id;
    transaction_date = date;
    amount = amount;
    currency = currency;
    counter_account_number = get_string row "column2";
    counter_account_name = get_string row "column10";
    counter_bank_code = get_string row "column3";
    counter_bank_name = get_string row "column12";
    bic = get_string row "column26";
    variable_symbol = get_string row "column5";
    specific_symbol = get_string row "column6";
    constant_symbol = get_string row "column4";
    user_identification = get_string row "column7";
    message_for_recipient = get_string row "column16";
    transaction_type = get_string row "column8";
    executor = get_string row "column9";
    specification = get_string row "column18";
    comment = get_string row "column25";
    instruction_id = get_string row "column17";
    raw_payload = payload;
  }

  unfoldable pub to_transaction : RawRow → Result RowError (FioTransactionOf ℤ Amount)
  to_transaction row = needs (get_int64 row "column22") missing_id (λ id.
      needs (get_string row "column0") missing_date (λ text.
        needs (go.parse_date text) bad_date (λ parsed.
          needs (go.parse_day (go.format_day parsed)) bad_date (λ date.
            needs (get_float64 row "column1") missing_amount (λ amount.
              needs (get_string row "column14") missing_currency (λ currency.
                needs (go.marshal row) not_marshaled
                  (λ payload. ok (row_transaction row id date amount currency payload))))))))

  abbrev pub add_transaction :
      ℕ
      → Result RowError (FioTransactionOf ℤ Amount)
      → Result (ℕ × RowError) (List (FioTransactionOf ℤ Amount))
      → Result (ℕ × RowError) (List (FioTransactionOf ℤ Amount))
  add_transaction i (err e) rest = err (i, e)
  add_transaction i (ok tx) (err e) = err e
  add_transaction i (ok tx) (ok txs) = ok (tx ∷ txs)

  -- The loop of Transactions from the row with index i on.
  unfoldable pub transactions_from :
      ℕ → List RawRow → Result (ℕ × RowError) (List (FioTransactionOf ℤ Amount))
  transactions_from i [] = ok []
  transactions_from i (row ∷ rows) =
      add_transaction i (to_transaction row) (transactions_from (suc i) rows)

  -- Transactions; an error has the index of the row.
  unfoldable pub transactions :
      List RawRow → Result (ℕ × RowError) (List (FioTransactionOf ℤ Amount))
  transactions rows = transactions_from 0 rows
