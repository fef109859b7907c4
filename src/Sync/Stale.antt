-- ===== src/Sync/Stale.antt =====
-- internal/syncjob/reconcile.go: FailStaleRuns, which the server calls before it starts anything.
use bank_system_public.Base.{
  ℕ, Bool, true, false, ◌≡◌, refl, List, [], ◌∷◌, any_row, where_rows, update_rows, length, arith,
  inl, inr, Bool-cases,
}
use bank_system_public.Store.{
  Db, Failure, Session, Result, ok, err, Query, pure, ◌>>=◌, attempt, continue, next_fails, later,
  is_running, failed_run, fail_stale_sync_fio_runs, is_running_orca, failed_orca_run,
  fail_stale_sync_orca_runs,
}

-- The answer is the number of runs of each kind that were closed. The first count is lost if the
-- second statement fails.
unfoldable pub fail_stale_runs : Query (ℕ × ℕ)
fail_stale_runs = do
  fio_count ← fail_stale_sync_fio_runs
  orca_count ← fail_stale_sync_orca_runs
  pure (fio_count, orca_count)

-- The tables before and after, by how the call ended.
abbrev pub StaleEnds : Db → Result Failure (ℕ × ℕ) × Session → Type 0
StaleEnds db (ok (fio_count, orca_count), s') =
    (any_row is_running s'.db.fio_runs ≡ false)
    × (any_row is_running_orca s'.db.orca_runs ≡ false)
    × (fio_count ≡ length (where_rows is_running db.fio_runs))
    × (orca_count ≡ length (where_rows is_running_orca db.orca_runs))
    × (s'.db ≡ record db { fio_runs = s'.db.fio_runs; orca_runs = s'.db.orca_runs })
StaleEnds db (err e, s') =
    (s'.db.orca_runs ≡ db.orca_runs) × (s'.db ≡ record db { fio_runs = s'.db.fio_runs })

any_row-closed :
    {A : Type 0} (p : A → Bool) (f : A → A) (xs : List A)
    → ((x : A) → p (f x) ≡ false)
    → any_row p (update_rows p f xs) ≡ false
any_row-closed p f [] h = refl
any_row-closed p f (x ∷ xs) h = elim (Bool-cases (p x)) [
  | inl e ↦ let closed = h x in ground (arith, any_row-closed p f xs h)
  | inr e ↦ ground (arith, any_row-closed p f xs h)
]

pub fail_stale_runs-StaleEnds : (s : Session) → StaleEnds s.db (fail_stale_runs s)
unfolding fail_stale_runs fail_stale_sync_fio_runs fail_stale_sync_orca_runs
fail_stale_runs-StaleEnds s = first (next_fails s.faults)
  where
    close_fio : Db → Result Failure (ℕ × Db)
    close_fio db = ok (
      length (where_rows is_running db.fio_runs),
      record db { fio_runs = update_rows is_running failed_run db.fio_runs },
    )

    close_orca : Db → Result Failure (ℕ × Db)
    close_orca db = ok (
      length (where_rows is_running_orca db.orca_runs),
      record db { orca_runs = update_rows is_running_orca failed_orca_run db.orca_runs },
    )

    t : Session
    t = record s { faults = later s.faults }

    u : Session
    u = record t { db = record s.db { fio_runs = update_rows is_running failed_run s.db.fio_runs } }

    then_orca : ℕ → Query (ℕ × ℕ)
    then_orca n = fail_stale_sync_orca_runs >>= λ k. pure (n, k)

    second :
        (fails : Bool)
        → StaleEnds s.db (
            let (r, v) = attempt fails close_orca (record u { faults = later u.faults }) in
            continue r (λ k. pure (length (where_rows is_running s.db.fio_runs), k)) v)
    second true = (refl, refl)
    second false = (
      any_row-closed is_running failed_run s.db.fio_runs (λ x. refl),
      any_row-closed is_running_orca failed_orca_run s.db.orca_runs (λ x. refl),
      refl,
      refl,
      refl,
    )

    first :
        (fails : Bool)
        → StaleEnds s.db (let (r, v) = attempt fails close_fio t in continue r then_orca v)
    first true = (refl, refl)
    first false = second (next_fails u.faults)
