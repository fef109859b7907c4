-- ===== src/Sync/Orca.antt =====
-- internal/orca/client.go (reading the members of an answer) and internal/syncjob/orca.go. The HTTP
-- request is outside: its answer is the list of rows, or none. Parsing a date and a UUID are the
-- parameters `parse_date` and `parse_uuid`.
pub mod Mirror
pub mod Synced
use bank_system_public.Base.{
  ℕ, ◌+◌, String, Bool, true, false, Option, none, some, List, [], ◌∷◌, length,
}
use bank_system_public.Calendar.{Date}
use bank_system_public.Store.{
  Member, Failure, Result, ok, err, Session, Action, pure, raise, ◌>>=◌, ◌>>◌, on_failure,
}
use bank_system_public.Store.OrcaSyncs.{
  upsert_member, upsert_default_payment_identifier, sync_default_payment_identifier_valid_to,
  create_sync_orca_run, finish_sync_orca_run,
}

-- membersResponse
pub record MemberRow : Type 0 where
  pub member_number : ℕ
  pub fee_start_date : Option String
  pub fee_stop_date : Option String
  pub active : Bool
  pub sub : Option String
  pub workplace_executive_committee_sub : Option String

pub record OrcaMember : Type 0 where
  pub member_number : ℕ
  pub fee_start_date : Option Date
  pub fee_stop_date : Option Date
  pub active : Bool
  pub sub : Option String
  pub workplace_executive_committee_sub : Option String

-- A field that is absent, or present and readable.
abbrev pub optional_field : {A : Type 0} → (String → Option A) → Option String → Option (Option A)
optional_field parse none = some none
optional_field parse (some text) = elim (parse text) [ none ↦ none | some a ↦ some (some a) ]

abbrev and_then : {A B : Type 0} → Option A → (A → Option B) → Option B
and_then none f = none
and_then (some a) f = f a

module _ (parse_date : String → Option Date) (parse_uuid : String → Option ℕ) where
  abbrev pub read_member : MemberRow → Option OrcaMember
  read_member m = and_then (optional_field parse_date m.fee_start_date) (λ start.
      and_then (optional_field parse_date m.fee_stop_date) (λ stop.
        and_then (optional_field parse_uuid m.sub) (λ _.
          and_then (optional_field parse_uuid m.workplace_executive_committee_sub) (λ _.
            some (record {
              member_number = m.member_number;
              fee_start_date = start;
              fee_stop_date = stop;
              active = m.active;
              sub = m.sub;
              workplace_executive_committee_sub = m.workplace_executive_committee_sub;
            })))))

  -- The loop of FetchMembers, which stops at the first row it cannot read.
  unfoldable pub read_members : List MemberRow → Option (List OrcaMember)
  read_members [] = some []
  read_members (m ∷ ms) =
      and_then (read_member m)
        (λ member. and_then (read_members ms) (λ members. some (member ∷ members)))

pub data OrcaError : Type 0 where
  not_created fetching upserting syncing_identifier : Failure → OrcaError
  unfetched bad_sub bad_committee_sub : OrcaError

pub record OrcaResult : Type 0 where
  pub members_fetched : ℕ
  pub members_upserted : ℕ

abbrev pub member_of : OrcaMember → Option ℕ → Option ℕ → Member
member_of m sub committee = record {
  member_number = m.member_number;
  fee_start_date = m.fee_start_date;
  fee_stop_date = m.fee_stop_date;
  active = m.active;
  sub = sub;
  workplace_executive_committee_sub = committee;
}

abbrev pub scan : {A : Type 0} → Option A → OrcaError → Action OrcaError A
scan none e = raise e
scan (some a) e = pure a

-- The error of a part with the number of members upserted before it.
abbrev pub counted_result : {A : Type 0} → ℕ → Result OrcaError A → Result (OrcaError × ℕ) A
counted_result n (ok a) = ok a
counted_result n (err e) = err (e, n)

abbrev pub counted : {A : Type 0} → ℕ → Action OrcaError A → Action (OrcaError × ℕ) A
counted n m s = let (r, t) = m s in (counted_result n r, t)

-- finishOrcaRun, which only logs an error.
abbrev pub finish_orca_run : ℕ → String → ℕ → ℕ → Bool → Session → Session
finish_orca_run run status fetched upserted has_error s =
    (finish_sync_orca_run run status fetched upserted has_error s).1

abbrev pub finish_sync :
    ℕ → ℕ → Result (OrcaError × ℕ) ℕ × Session → Result OrcaError OrcaResult × Session
finish_sync run fetched (ok upserted, s) = (
  ok (record { members_fetched = fetched; members_upserted = upserted }),
  finish_orca_run run "success" fetched upserted false s,
)
finish_sync run fetched (err (e, upserted), s) =
    (err e, finish_orca_run run "failed" fetched upserted true s)

module _ (parse_uuid : String → Option ℕ) (itoa : ℕ → String) where
  -- The default payment identifier follows the member's liability window.
  abbrev pub sync_identifier : ℕ → Option Date → Option Date → Action OrcaError (Unit {0})
  sync_identifier n none stop =
      on_failure (sync_default_payment_identifier_valid_to itoa n stop) syncing_identifier
  sync_identifier n (some start) stop =
      on_failure (upsert_default_payment_identifier itoa n start stop) syncing_identifier

  -- One round of the loop.
  unfoldable pub sync_member : OrcaMember → Action OrcaError (Unit {0})
  sync_member m = do
    sub ← scan (optional_field parse_uuid m.sub) bad_sub
    committee ←
        scan (optional_field parse_uuid m.workplace_executive_committee_sub) bad_committee_sub
    _ ← on_failure (upsert_member (member_of m sub committee)) upserting
    sync_identifier m.member_number m.fee_start_date m.fee_stop_date

  unfoldable pub sync_members : List OrcaMember → ℕ → Action (OrcaError × ℕ) ℕ
  unfolding sync_member
  sync_members [] upserted = pure upserted
  sync_members (m ∷ ms) upserted = do
    _ ← counted upserted (sync_member m)
    sync_members ms (upserted + 1)

  abbrev pub sync_fetched_members : ℕ → Option (List OrcaMember) → Action OrcaError OrcaResult
  sync_fetched_members run none s = (err unfetched, finish_orca_run run "failed" 0 0 true s)
  sync_fetched_members run (some members) s =
      finish_sync run (length members) (sync_members members 0 s)

  -- RunOrcaSync, with what FetchMembers answers.
  unfoldable pub run_orca_sync : Option (List OrcaMember) → Action OrcaError OrcaResult
  unfolding sync_members
  run_orca_sync fetched = do
    run ← on_failure create_sync_orca_run not_created
    sync_fetched_members run fetched
