-- ===== src/Sync/Orca/Synced.antt =====
-- After RunOrcaSync has succeeded, the tables mirror the members that Orca sent.
use bank_system_public.Base.{
  ℕ, ◌+◌, String, Bool, true, false, ◌≡◌, refl, Option, none, some, List, [], ◌∷◌, ◌++◌, ◌==◌, inl,
  inr, Bool-cases, first_row, any_row, length, arith, All, All-map, Apart,
}
use bank_system_public.Calendar.{Date}
use bank_system_public.Store.{
  OrcaRun, attempt, continue, rename_error, next_fails, later, Db, Member, Failure, Result, ok, err,
  Session, Action, ◌>>=◌,
}
use bank_system_public.Store.Effects.{Preserves-write}
use bank_system_public.Store.Leads
use bank_system_public.Store.Leads.{Leads}
use bank_system_public.Store.OrcaSyncs.{
  put_member, takes_sub, write_member, upsert_member, clashes, write_default,
  upsert_default_payment_identifier, sync_default_payment_identifier_valid_to, create_sync_orca_run,
  finish_sync_orca_run, new_orca_run,
}
use bank_system_public.Sync.Orca.Mirror.{
  has_number, Follows, IsMirrored, IsMirrored-moved, put_member-own, put_member-other,
  put_default-own, Follows-updated, Follows-put_default, Follows-ended,
}
use bank_system_public.Sync.Orca.{
  not_created, bad_sub, bad_committee_sub, upserting, syncing_identifier, OrcaMember, OrcaError,
  finish_orca_run, OrcaResult, optional_field, member_of, scan, counted, counted_result,
  sync_identifier, sync_member, sync_members, finish_sync, sync_fetched_members, run_orca_sync,
}

module _ {A B : Type 0} (P : Db → Type 0) (Q : B → Db → Type 0) (R : Db → Type 0) where
  Leads-scan :
      (o : Option A) (e : OrcaError) (f : A → Action OrcaError B)
      → ((db : Db) → P db → R db)
      → ((a : A) → o ≡ some a → Leads P Q R (f a))
      → Leads P Q R (scan o e >>= f)
  Leads-scan none e f errs h = Leads.Leads-raise P Q R e errs
  Leads-scan (some a) e f errs h = h a refl

abbrev Anything : Db → Type 0
Anything db = Unit

module _ (parse_uuid : String → Option ℕ) (itoa : ℕ → String) where
  abbrev Mirrors : OrcaMember → Db → Type 0
  Mirrors m db = IsMirrored parse_uuid itoa db m

  moved :
      (m : OrcaMember) (db db' : Db)
      → first_row (has_number m.member_number) db'.members
        ≡ first_row (has_number m.member_number) db.members
      → Follows itoa m.member_number m.fee_start_date m.fee_stop_date db'
      → Mirrors m db
      → Mirrors m db'
  moved = IsMirrored-moved parse_uuid itoa

  -- The window is one of the identifiers alone.
  framed :
      (n : ℕ) (start stop : Option Date) (db : Db) (rows : List Member)
      → Follows itoa n start stop db
      → Follows itoa n start stop (record db { members = rows })
  framed n none stop db rows h = h
  framed n (some start) stop db rows h = h

  sync_identifier-other :
      (m : OrcaMember) (n : ℕ) (start stop : Option Date)
      → (n == m.member_number) ≡ false
      → Leads (Mirrors m) (λ _. Mirrors m) Anything (sync_identifier parse_uuid itoa n start stop)
  unfolding upsert_default_payment_identifier sync_default_payment_identifier_valid_to
  sync_identifier-other m n none stop h =
      Leads.Leads-statement (Mirrors m) (λ _. Mirrors m) _ _ syncing_identifier (λ db p. tt)
        (λ db p.
          moved m db _ refl
            (Follows-updated itoa m.member_number n (λ mpi. record mpi { valid_to = stop })
              m.fee_start_date m.fee_stop_date db h (λ mpi. refl) p.window)
            p)
  sync_identifier-other m n (some start) stop h =
      Leads.Leads-statement _ _ _ _ syncing_identifier (λ db p. tt) written
    where
      written :
          (db : Db)
          → Mirrors m db
          → Leads.Written (λ _. Mirrors m) (write_default itoa n start stop db)
      written db p = elim (Bool-cases (any_row (clashes itoa n start) db.identifiers)) [
        | inl e ↦ rw e tt
        | inr e ↦ rw e (
            moved m db _ refl
              (Follows-put_default itoa m.member_number n start stop m.fee_start_date
                m.fee_stop_date db h p.window)
              p)
      ]

  -- The statement refuses a sub that another member has, or puts the row.
  write_member-Written :
      (Q : Unit {0} → Db → Type 0) (row : Member) (db : Db)
      → Q tt (record db { members = put_member row db.members })
      → Leads.Written Q (write_member row db)
  write_member-Written Q row db q = elim (Bool-cases (any_row (takes_sub row) db.members)) [
    | inl e ↦ rw e tt
    | inr e ↦ rw e q
  ]

  -- Synchronising one member keeps another mirrored.
  sync_member-other :
      (m other : OrcaMember)
      → (other.member_number == m.member_number) ≡ false
      → Leads (Mirrors m) (λ _. Mirrors m) Anything (sync_member parse_uuid itoa other)
  unfolding sync_member upsert_member
  sync_member-other m other h =
      Leads-scan _ _ _ (optional_field parse_uuid other.sub) bad_sub _ (λ db p. tt)
        (λ sub _.
          Leads-scan _ _ _ (optional_field parse_uuid other.workplace_executive_committee_sub)
            bad_committee_sub _ (λ db p. tt)
            (λ committee _.
              Leads.Leads-bind _ (λ _. Mirrors m) _ _ _ _
                (Leads.Leads-statement (Mirrors m) (λ _. Mirrors m) _ _ upserting (λ db p. tt)
                  (λ db p.
                    write_member-Written (λ _. Mirrors m) (member_of other sub committee) db
                      (moved m db _
                        (put_member-other m.member_number (member_of other sub committee) db.members
                          h)
                        (framed m.member_number m.fee_start_date m.fee_stop_date db _ p.window) p)))
                (λ _.
                  sync_identifier-other m other.member_number other.fee_start_date
                    other.fee_stop_date h)))

  -- The row of the member is there; its window is next.
  abbrev HasRow : OrcaMember → Option ℕ → Option ℕ → Db → Type 0
  HasRow m sub committee db =
      first_row (has_number m.member_number) db.members ≡ some (member_of m sub committee)

  sync_identifier-own :
      (n : ℕ) (start stop : Option Date) (H : List Member → Type 0)
      → Leads
          (λ db. H db.members)
          (λ _ db. H db.members × Follows itoa n start stop db)
          Anything
          (sync_identifier parse_uuid itoa n start stop)
  unfolding upsert_default_payment_identifier sync_default_payment_identifier_valid_to
  sync_identifier-own n none stop H =
      Leads.Leads-statement _ _ _ _ syncing_identifier (λ db p. tt)
        (λ db p. (p, Follows-ended itoa n stop db.identifiers))
  sync_identifier-own n (some start) stop H =
      Leads.Leads-statement _ _ _ _ syncing_identifier (λ db p. tt) written
    where
      written :
          (db : Db)
          → H db.members
          → Leads.Written
              (λ _ db. H db.members × Follows itoa n (some start) stop db)
              (write_default itoa n start stop db)
      written db p = elim (Bool-cases (any_row (clashes itoa n start) db.identifiers)) [
        | inl e ↦ rw e tt
        | inr e ↦ rw e (p, put_default-own itoa n start stop db.identifiers)
      ]

  sync_member-own :
      (P : Db → Type 0) (m : OrcaMember)
      → Leads P (λ _. Mirrors m) Anything (sync_member parse_uuid itoa m)
  unfolding sync_member upsert_member
  sync_member-own P m =
      Leads-scan _ _ _ (optional_field parse_uuid m.sub) bad_sub _ (λ db p. tt)
        (λ sub e.
          Leads-scan _ _ _ (optional_field parse_uuid m.workplace_executive_committee_sub)
            bad_committee_sub _ (λ db p. tt)
            (λ committee e'.
              Leads.Leads-bind _ (λ _. HasRow m sub committee) _ _ _ _
                (Leads.Leads-statement _ _ _ _ upserting (λ db p. tt)
                  (λ db p.
                    write_member-Written (λ _. HasRow m sub committee) (member_of m sub committee)
                      db (put_member-own (member_of m sub committee) db.members)))
                (λ _.
                  Leads.Leads-weaken _ _ _ _ _ _ _ (λ db p. p)
                    (λ _ db p. record {
                      sub = sub;
                      committee = committee;
                      sub_read = e;
                      committee_read = e';
                      row = p.0;
                      window = p.1;
                    })
                    (λ db p. p)
                    (sync_identifier-own m.member_number m.fee_start_date m.fee_stop_date (λ ms.
                      first_row (has_number m.member_number) ms
                      ≡ some (member_of m sub committee))))))

  abbrev same_member : OrcaMember → OrcaMember → Bool
  same_member a b = b.member_number == a.member_number

  counted-Leads :
      {A : Type 0} (P : Db → Type 0) (Q : A → Db → Type 0) (n : ℕ) (m : Action OrcaError A)
      → Leads P Q Anything m
      → Leads P Q Anything (counted n m)
  counted-Leads {A = A} P Q n m h = record { at = λ s p. go (m s).0 (m s).1 (h.at s p) }
    where
      go :
          (r : Result OrcaError A) (t : Session)
          → Leads.Reached Q Anything (r, t)
          → Leads.Reached Q Anything (counted_result n r, t)
      go (ok a) t q = q
      go (err e) t q = tt

  sync_members-other :
      (m : OrcaMember) (ms : List OrcaMember) (n : ℕ)
      → any_row (same_member m) ms ≡ false
      → Leads (Mirrors m) (λ _. Mirrors m) Anything (sync_members parse_uuid itoa ms n)
  unfolding sync_members
  sync_members-other m [] n h = Leads.Leads-pure _ _ _ n (λ db p. p)
  sync_members-other m (x ∷ ms) n h =
      Leads.Leads-bind _ (λ _. Mirrors m) _ _ _ _
        (counted-Leads _ _ n _ (sync_member-other m x (ground arith)))
        (λ _. sync_members-other m ms (n + 1) (ground arith))

  sync_members-all :
      (P : Db → Type 0) (ms : List OrcaMember) (n : ℕ)
      → Apart same_member ms
      → Leads P
          (λ k db. (k ≡ n + length ms) × All (IsMirrored parse_uuid itoa db) ms)
          Anything
          (sync_members parse_uuid itoa ms n)
  unfolding sync_members
  sync_members-all P [] n apart = Leads.Leads-pure _ _ _ n (λ db p. (omega arith, tt))
  sync_members-all P (m ∷ ms) n apart =
      Leads.Leads-bind _ (λ _. Mirrors m) _ _ _ _ (counted-Leads _ _ n _ (sync_member-own P m))
        (λ _.
          Leads.Leads-both _ _ _ _ _ (sync_members-other m ms (n + 1) apart.0)
            (sync_members-all (Mirrors m) ms (n + 1) apart.1)
            (λ k db p q. (let count = q.0 in omega arith, (p, q.1))))

  -- What a synchronisation leaves: a success mirrors every member that Orca sent, and counts them.
  abbrev pub OrcaEnds : List OrcaMember → Result OrcaError OrcaResult × Session → Type 0
  OrcaEnds ms (ok result, s') =
      (result.members_fetched ≡ length ms)
      × (result.members_upserted ≡ length ms)
      × All (IsMirrored parse_uuid itoa s'.db) ms
  OrcaEnds ms (err e, s') = Unit

  -- Finishing the run writes no member and no identifier.
  finished :
      (run : ℕ) (status : String) (fetched upserted : ℕ) (has_error : Bool) (ms : List OrcaMember)
      (s : Session)
      → All (IsMirrored parse_uuid itoa s.db) ms
      → All
          (IsMirrored parse_uuid itoa (finish_orca_run run status fetched upserted has_error s).db)
          ms
  unfolding finish_sync_orca_run
  finished run status fetched upserted has_error ms s h =
      (Preserves-write (λ db. All (IsMirrored parse_uuid itoa db) ms) (λ db. tt) _
          (λ db p. All-map _ _ (λ m q. moved m db _ refl (reread m db _ q.window) q) ms p)).at
        s h
    where
      reread :
          (m : OrcaMember) (db : Db) (runs : List OrcaRun)
          → Follows itoa m.member_number m.fee_start_date m.fee_stop_date db
          → Follows itoa m.member_number m.fee_start_date m.fee_stop_date
              (record db { orca_runs = runs })
      reread m db runs q = same m.fee_start_date q
        where
          same :
              (start : Option Date)
              → Follows itoa m.member_number start m.fee_stop_date db
              → Follows itoa m.member_number start m.fee_stop_date (record db { orca_runs = runs })
          same none q = q
          same (some d) q = q

  ended :
      (run : ℕ) (ms : List OrcaMember) (r : Result (OrcaError × ℕ) ℕ) (t : Session)
      → Leads.Reached
          (λ k db. (k ≡ 0 + length ms) × All (IsMirrored parse_uuid itoa db) ms)
          Anything
          (r, t)
      → OrcaEnds ms (finish_sync run (length ms) (r, t))
  ended run ms (ok k) t (e, h) =
      (refl, omega (arith, e), finished run "success" (length ms) k false ms t h)
  ended run ms (err e) t h = tt

  -- When a synchronisation with Orca succeeds, every member that Orca sent has the row that Orca
  -- sent; the default payment identifier of a member with a fee start is the one from there to the
  -- fee stop, and the default identifier of a member without a fee start, if there is one, ends with
  -- the fee stop. The result counts all of them. This is for members with different numbers, whatever
  -- the tables held before.
  pub run_orca_sync-OrcaEnds :
      (ms : List OrcaMember) (s : Session)
      → Apart same_member ms
      → OrcaEnds ms (run_orca_sync parse_uuid itoa (some ms) s)
  unfolding run_orca_sync create_sync_orca_run
  run_orca_sync-OrcaEnds ms s apart =
      start (next_fails s.faults) (record s { faults = later s.faults })
    where
      created : Db → Result Failure (ℕ × Db)
      created db = ok (
        db.next_id,
        record db {
          orca_runs = db.orca_runs ++ new_orca_run db.next_id ∷ [];
          next_id = db.next_id + 1;
        },
      )

      start :
          (fails : Bool) (t : Session)
          → OrcaEnds ms (
              let (r, u) = attempt fails created t in
              continue
                (rename_error not_created r)
                (λ run. sync_fetched_members parse_uuid itoa run (some ms))
                u)
      start true t = tt
      start false t =
          let u : Session = record t {
            db = record t.db {
              orca_runs = t.db.orca_runs ++ new_orca_run t.db.next_id ∷ [];
              next_id = t.db.next_id + 1;
            };
          } in
          let (r, v) = sync_members parse_uuid itoa ms 0 u in
          ended t.db.next_id ms r v ((sync_members-all Anything ms 0 apart).at u tt)
