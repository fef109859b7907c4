-- ===== src/Store/OrcaSyncs.antt =====
-- The statements of the synchronisation with Orca, on members, member_payment_identifiers and
-- sync_orca_runs (internal/db/queries.sql.go). Writing a member number as text (strconv.Itoa, and
-- `::text` in the database) is the parameter `itoa`.
use bank_system_public.Base.{
  ℕ, ◌+◌, String, Bool, true, false, not, ◌&&◌, Option, none, some, List, [], ◌∷◌, ◌++◌, str_eq,
  ◌==◌, if◌then◌else◌, any_row, update_rows, length, where_rows,
}
use bank_system_public.Calendar.{Date}
use bank_system_public.Store.Schema.{Member, PaymentIdentifier, OrcaRun, Db}
use bank_system_public.Store.Monad.{Result, Failure, ok, err, unique_violation, Query, statement}

-- ON CONFLICT (member_number) DO UPDATE
abbrev pub put_member : Member → List Member → List Member
put_member m rows =
    if any_row (λ x. x.member_number == m.member_number) rows
    then update_rows (λ x. x.member_number == m.member_number) (λ x. m) rows
    else rows ++ m ∷ []

abbrev pub is_sub : ℕ → Option ℕ → Bool
is_sub sub none = false
is_sub sub (some x) = x == sub

-- UNIQUE (sub); NULLs differ.
abbrev pub claims_sub : Member → Option ℕ → Bool
claims_sub x none = false
claims_sub x (some sub) = is_sub sub x.sub

-- Another member has the sub.
abbrev pub takes_sub : Member → Member → Bool
takes_sub m x = not (x.member_number == m.member_number) && claims_sub x m.sub

abbrev pub write_member : Member → Db → Result Failure (Unit {0} × Db)
write_member m db =
    if any_row (takes_sub m) db.members
    then err unique_violation
    else ok (tt, record db { members = put_member m db.members })

unfoldable pub upsert_member : Member → Query (Unit {0})
upsert_member m = statement (write_member m)

abbrev pub same_date : Date → Date → Bool
same_date a b = a.year == b.year && a.month == b.month && a.day == b.day

module _ (itoa : ℕ → String) where
  -- The rows of the index member_payment_identifiers_default_key.
  abbrev pub is_default : ℕ → PaymentIdentifier → Bool
  is_default n mpi = mpi.member_number == n && str_eq mpi.variable_symbol (itoa n)

  abbrev pub default_row : ℕ → Date → Option Date → PaymentIdentifier
  default_row n valid_from valid_to = record {
    member_number = n;
    variable_symbol = itoa n;
    valid_from = valid_from;
    valid_to = valid_to;
  }

  -- UNIQUE (variable_symbol, valid_from)
  abbrev pub clashes : ℕ → Date → PaymentIdentifier → Bool
  clashes n valid_from mpi =
      not (is_default n mpi)
      && str_eq mpi.variable_symbol (itoa n)
      && same_date mpi.valid_from valid_from

  -- ON CONFLICT ... DO UPDATE of the window; leaving an equal window alone changes nothing.
  abbrev pub put_default : ℕ → Date → Option Date → List PaymentIdentifier → List PaymentIdentifier
  put_default n valid_from valid_to rows =
      if any_row (is_default n) rows
      then update_rows (is_default n)
          (λ mpi. record mpi { valid_from = valid_from; valid_to = valid_to }) rows
      else rows ++ default_row n valid_from valid_to ∷ []

  abbrev pub write_default : ℕ → Date → Option Date → Db → Result Failure (Unit {0} × Db)
  write_default n valid_from valid_to db =
      if any_row (clashes n valid_from) db.identifiers
      then err unique_violation
      else ok (tt, record db { identifiers = put_default n valid_from valid_to db.identifiers })

  unfoldable pub upsert_default_payment_identifier : ℕ → Date → Option Date → Query (Unit {0})
  upsert_default_payment_identifier n valid_from valid_to =
      statement (write_default n valid_from valid_to)

  unfoldable pub sync_default_payment_identifier_valid_to : ℕ → Option Date → Query (Unit {0})
  sync_default_payment_identifier_valid_to n valid_to = statement (λ db. ok (
    tt,
    record db {
      identifiers =
          update_rows (is_default n) (λ mpi. record mpi { valid_to = valid_to }) db.identifiers;
    },
  ))

abbrev pub new_orca_run : ℕ → OrcaRun
new_orca_run id = record {
  id = id;
  status = "running";
  members_fetched = none;
  members_upserted = none;
  has_error = false;
}

-- The answer is the id of the new row.
unfoldable pub create_sync_orca_run : Query ℕ
create_sync_orca_run = statement (λ db. ok (
  db.next_id,
  record db { orca_runs = db.orca_runs ++ new_orca_run db.next_id ∷ []; next_id = db.next_id + 1 },
))

abbrev finished_orca : String → ℕ → ℕ → Bool → OrcaRun → OrcaRun
finished_orca status fetched upserted has_error run = record run {
  status = status;
  members_fetched = some fetched;
  members_upserted = some upserted;
  has_error = has_error;
}

unfoldable pub finish_sync_orca_run : ℕ → String → ℕ → ℕ → Bool → Query (Unit {0})
finish_sync_orca_run id status fetched upserted has_error = statement (λ db. ok (
  tt,
  record db {
    orca_runs =
        update_rows (λ r. r.id == id) (finished_orca status fetched upserted has_error)
          db.orca_runs;
  },
))

abbrev pub is_running_orca : OrcaRun → Bool
is_running_orca run = str_eq run.status "running"

abbrev pub failed_orca_run : OrcaRun → OrcaRun
failed_orca_run run = record run { status = "failed"; has_error = true }

-- The answer is the number of rows changed.
unfoldable pub fail_stale_sync_orca_runs : Query ℕ
fail_stale_sync_orca_runs = statement (λ db. ok (
  length (where_rows is_running_orca db.orca_runs),
  record db { orca_runs = update_rows is_running_orca failed_orca_run db.orca_runs },
))
