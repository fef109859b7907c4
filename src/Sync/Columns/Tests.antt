-- ===== src/Sync/Columns/Tests.antt =====
-- The theorem on the rows of an answer, at rows of which the second has no id.
use bank_system_public.Base.Int.{pos}
use bank_system_public.Base.{◌≡◌, refl, String, Option, none, some, [], ◌∷◌, str_eq, if◌then◌else◌}
use bank_system_public.Sync.Columns.{
  FioColumn, RawRow, Parsing, missing_id, get_string, transactions,
}
use bank_system_public.Store.{err}
use bank_system_public.Sync.Columns.Read.{Reads, transactions-Reads}

-- A number is its text, and every date the first of June.
abbrev go : Parsing String String
go = record {
  read_string = λ raw. none;
  read_float = λ raw. some raw;
  to_int64 = λ f. pos 7;
  parse_date = λ text. some text;
  format_day = λ text. text;
  parse_day = λ text. some (record { year = 2026; month = 6; day = 1 });
  marshal = λ row. some "{}";
}

abbrev column : String → Option (Option FioColumn)
column text = some (some (record { value = text; name = ""; id = 0 }))

abbrev complete : RawRow
complete name =
    if str_eq name "column22"
    then column "7"
    else if str_eq name "column0"
    then column "2026-06-01+0200"
    else if str_eq name "column1"
    then column "150.00"
    else if str_eq name "column14"
    then column "CZK"
    else if str_eq name "column5"
    then column "null"
    else none

abbrev without_id : RawRow
without_id name = none

transactions-Reads_example :
    Reads go
      (complete ∷ without_id ∷ complete ∷ [])
      (transactions go (complete ∷ without_id ∷ complete ∷ []))
transactions-Reads_example = transactions-Reads go (complete ∷ without_id ∷ complete ∷ [])

rows_without_id : transactions go (complete ∷ without_id ∷ complete ∷ []) ≡ err (1, missing_id)
unfolding transactions bank_system_public.Sync.Columns.transactions_from
    bank_system_public.Sync.Columns.to_transaction
rows_without_id = refl

unset_symbol : get_string go complete "column5" ≡ none
unset_symbol = refl

literal_currency : get_string go complete "column14" ≡ some "CZK"
literal_currency = refl
