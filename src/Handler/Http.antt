-- ===== src/Handler/Http.antt =====
-- What the handlers share: error statuses, identifiers and months in requests.
pub mod Steps
use bank_system_public.Base.{ℕ, Bool, not, ◌||◌, Option, none, some, ltb, if◌then◌else◌}
use bank_system_public.Base.Int.{ℤ, pos, negsuc, ltb_ℤ, pos_part}
use bank_system_public.Calendar.{MonthRef}
use bank_system_public.Store.{Failure, no_rows, Action, pure, raise}

pub data HttpError : Type 0 where
  bad_request not_found forbidden conflict too_large bad_gateway internal_error : HttpError

abbrev pub Handler : Type 0 → Type 0
Handler = Action HttpError

-- `if err != nil { writeError(w, http.StatusInternalServerError, ...) }`
abbrev pub internal : Failure → HttpError
internal e = internal_error

-- pgx.ErrNoRows answers 404, any other error 500.
abbrev pub missing_row : Failure → HttpError
missing_row no_rows = not_found
missing_row _ = internal_error

-- The number that strconv.ParseInt gave, unless it is below 1: parseMemberNumber and
-- parseTransactionID.
abbrev pub parse_id : Option ℤ → Option ℕ
parse_id none = none
parse_id (some (negsuc n)) = none
parse_id (some (pos n)) = if ltb n 1 then none else some n

-- `m < 1 || m > 12 || y < 2000 || y > maxYear`
abbrev pub is_month_entry : ℕ → ℤ → ℤ → Bool
is_month_entry max_year year month = not (
    ltb_ℤ month (pos 1)
    || ltb_ℤ (pos 12) month
    || ltb_ℤ year (pos 2000)
    || ltb_ℤ (pos max_year) year)

abbrev pub month_entry : ℤ → ℤ → MonthRef
month_entry year month = record { year = pos_part year; month = pos_part month }

-- `if !ok { writeError(w, http.StatusBadRequest, ...) }`
abbrev pub or_bad_request : {A : Type 0} → Option A → Handler A
or_bad_request none = raise bad_request
or_bad_request (some a) = pure a
