-- ===== src/Processing/Drain.antt =====
-- A run in which no statement fails leaves no transaction unprocessed.
use bank_system_public.Base.{
  ℕ, ◌+◌, String, ◌≡◌, refl, ◌∙◌, ap, Bool, true, false, not, ◌||◌, Option, none, some, List, [],
  ◌∷◌, arith, length, any_row-append, where_rows, All, Bool-cases, inl, inr, ◌==◌,
}
use bank_system_public.Calendar.{Date}
use bank_system_public.Store.{
  Db, RawTransaction, ProcessedTransaction, CategorizationRule, Result, ok, err, Failure, calm,
  is_processed, unprocessed, processed_row, Query, list_unprocessed_transactions,
  list_enabled_categorization_rules, list_active_bank_account_numbers, enabled_rules,
  active_accounts, find_member_by_variable_symbol, in_transaction, create_processed_transaction,
  create_payment_coverage,
}
use bank_system_public.Processing.{
  Outcome, RunResult, tally, transaction_direction, apply_member_rule, apply_rule, or_else,
  categorize, cover_default, insert_outcome, store_outcome, process_one, load_rules, run_rows,
  run_loaded, run,
}
use bank_system_public.Processing.FirstMatch.{apply_rule-calm}
use bank_system_public.Processing.Atomicity.{params, stored}

-- The result is no error.
abbrev Answers : {A : Type 0} → Result Failure A → Type 0
Answers (ok a) = Unit
Answers (err e) = ⊥

answer : {A : Type 0} (r : Result Failure A) → Answers r → (a : A) × (r ≡ ok a)
answer (ok a) h = (a, refl)
answer (err e) h = absurd h

apply_member_rule-Answers :
    (rule : CategorizationRule) (symbol : Option String) (date : Date) (db : Db)
    → Answers (apply_member_rule rule symbol date (calm db)).0
unfolding apply_member_rule find_member_by_variable_symbol
apply_member_rule-Answers rule symbol date db = ground arith

module _ (lower : ℕ → ℕ) where
  apply_rule-Answers :
      (rule : CategorizationRule) (rt : RawTransaction) (direction : String)
      (accounts : List String) (db : Db)
      → Answers (apply_rule lower rule rt direction accounts (calm db)).0
  unfolding apply_rule
  apply_rule-Answers rule rt direction accounts db =
      ground (arith, apply_member_rule-Answers rule rt.variable_symbol rt.transaction_date db)

  or_else-calm :
      (rest : Query Outcome) (db : Db) (o : Outcome) (m : Option Outcome)
      → rest (calm db) ≡ (ok o, calm db)
      → (p : Outcome) × (or_else lower rest m (calm db) ≡ (ok p, calm db))
  or_else-calm rest db o none h = (o, h)
  or_else-calm rest db o (some p) h = (p, refl)

  categorize-calm :
      (rt : RawTransaction) (direction : String) (accounts : List String)
      (rules : List CategorizationRule) (db : Db)
      → (o : Outcome) × (categorize lower rt direction accounts rules (calm db) ≡ (ok o, calm db))
  unfolding categorize
  categorize-calm rt direction accounts [] db = (_, refl)
  categorize-calm rt direction accounts (rule ∷ rules) db =
      let (m, e) = answer _ (apply_rule-Answers rule rt direction accounts db) in
      let (o, h) = categorize-calm rt direction accounts rules db in
      let (p, k) = or_else-calm (categorize lower rt direction accounts rules) db o m h in
      (p, rw (e, apply_rule-calm lower rt direction accounts db rule) k)

  process_one-calm :
      (rt : RawTransaction) (rules : List CategorizationRule) (accounts : List String) (db : Db)
      → is_processed db.processed rt ≡ false
      → (o : Outcome) × (process_one lower rt rules accounts (calm db)
          ≡ (ok tt, calm (stored rt o db)))
  unfolding process_one store_outcome in_transaction insert_outcome cover_default
      create_processed_transaction create_payment_coverage
  process_one-calm rt rules accounts db new =
      let (o, h) = categorize-calm rt (transaction_direction rt.amount) accounts rules db in
      (o, rw h (ground arith))

-- The ids of the rows differ from one another, as those of a PRIMARY KEY do.
abbrev pub DistinctIds : List RawTransaction → Type 0
DistinctIds [] = Unit
DistinctIds (r ∷ rows) = All (λ q. (r.id == q.id) ≡ false) rows × DistinctIds rows

is_processed-stored :
    (rt : RawTransaction) (o : Outcome) (db : Db) (q : RawTransaction)
    → is_processed (stored rt o db).processed q ≡ (is_processed db.processed q || rt.id == q.id)
is_processed-stored rt o db q =
    any_row-append (λ pt. pt.raw_transaction_id == q.id) db.processed
      (processed_row db.next_id (params rt o) ∷ [])
    ∙ ground arith

-- Rows that a longer table of processed transactions still does not know.
still_new :
    (rt : RawTransaction) (o : Outcome) (db : Db) (rows : List RawTransaction)
    → All (λ q. (rt.id == q.id) ≡ false) rows
    → All (λ q. is_processed db.processed q ≡ false) rows
    → All (λ q. is_processed (stored rt o db).processed q ≡ false) rows
still_new rt o db [] d n = tt
still_new rt o db (q ∷ rows) d n =
    (is_processed-stored rt o db q ∙ ground arith, still_new rt o db rows d.1 n.1)

module _ (lower : ℕ → ℕ) (rules : List CategorizationRule) (accounts : List String) where
  -- After the loop: the same raw transactions, all of the given ones processed, none forgotten.
  record Drains (rows : List RawTransaction) (acc : RunResult) (db : Db) : Type 0 where
    last : Db
    counts : run_rows lower rows rules accounts acc (calm db) ≡ (
      record {
        transactions_processed = acc.transactions_processed + length rows;
        transactions_failed = acc.transactions_failed;
      },
      calm last,
    )
    same_raw : last.raw ≡ db.raw
    kept :
        (q : RawTransaction)
        → is_processed db.processed q ≡ true
        → is_processed last.processed q ≡ true
    done : All (λ q. is_processed last.processed q ≡ true) rows

  run_rows-Drains :
      (rows : List RawTransaction) (acc : RunResult) (db : Db)
      → DistinctIds rows
      → All (λ q. is_processed db.processed q ≡ false) rows
      → Drains rows acc db
  unfolding run_rows
  run_rows-Drains [] acc db d n = record {
    last = db;
    counts = ground arith;
    same_raw = refl;
    kept = λ q h. h;
    done = tt;
  }
  run_rows-Drains (rt ∷ rts) acc db d n =
      let (o, e) = process_one-calm lower rt rules accounts db n.0 in
      let fine : Result Failure (Unit {0}) = ok tt in
      let rest =
        run_rows-Drains rts (tally fine acc) (stored rt o db) d.1 (still_new rt o db rts d.0 n.1) in
      record {
        last = rest.last;
        counts = rw e (rest.counts ∙ ground arith);
        same_raw = rest.same_raw;
        kept = λ q h. rest.kept q (is_processed-stored rt o db q ∙ ground arith);
        done = (rest.kept rt (is_processed-stored rt o db rt ∙ ground arith), rest.done);
      }

unprocessed-new :
    (processed : List ProcessedTransaction) (rows : List RawTransaction)
    → All
        (λ q. is_processed processed q ≡ false)
        (where_rows (λ q. not (is_processed processed q)) rows)
unprocessed-new processed [] = tt
unprocessed-new processed (r ∷ rows) = elim (Bool-cases (is_processed processed r)) [
  | inl e ↦ rw e (unprocessed-new processed rows)
  | inr e ↦ rw e (e, unprocessed-new processed rows)
]

All-where_rows :
    (P : RawTransaction → Type 0) (p : RawTransaction → Bool) (rows : List RawTransaction)
    → All P rows
    → All P (where_rows p rows)
All-where_rows P p [] h = tt
All-where_rows P p (r ∷ rows) h = elim (Bool-cases (p r)) [
  | inl e ↦ rw e (h.0, All-where_rows P p rows h.1)
  | inr e ↦ rw e (All-where_rows P p rows h.1)
]

DistinctIds-where_rows :
    (p : RawTransaction → Bool) (rows : List RawTransaction)
    → DistinctIds rows
    → DistinctIds (where_rows p rows)
DistinctIds-where_rows p [] h = tt
DistinctIds-where_rows p (r ∷ rows) h = elim (Bool-cases (p r)) [
  | inl e ↦ rw e (All-where_rows _ p rows h.0, DistinctIds-where_rows p rows h.1)
  | inr e ↦ rw e (DistinctIds-where_rows p rows h.1)
]

-- Rows that the old or the new table knows leave nothing to process.
nothing_left :
    (old new : List ProcessedTransaction) (rows : List RawTransaction)
    → ((q : RawTransaction) → is_processed old q ≡ true → is_processed new q ≡ true)
    → All (λ q. is_processed new q ≡ true) (where_rows (λ q. not (is_processed old q)) rows)
    → where_rows (λ q. not (is_processed new q)) rows ≡ []
nothing_left old new [] k h = refl
nothing_left old new (r ∷ rows) k h = elim (Bool-cases (is_processed old r)) [
  | inl e ↦ rw (k r e) (nothing_left old new rows k (rw e at h))
  | inr e ↦
      let (here, there) =
        (let h' : All (λ q. is_processed new q ≡ true)
              (r ∷ where_rows (λ q. not (is_processed old q)) rows) =
            rw e at h in
          h') in
      rw here (nothing_left old new rows k there)
]

-- If no statement fails and the raw transactions have distinct ids, a run processes every waiting
-- transaction, fails on none, and leaves none waiting.
pub run-drains :
    (lower : ℕ → ℕ) (db : Db)
    → DistinctIds db.raw
    → (last : Db) × (run lower (calm db) ≡ (
      ok (record { transactions_processed = length (unprocessed db); transactions_failed = 0 }),
      calm last,
    ))
      × (last.raw ≡ db.raw)
      × (unprocessed last ≡ [])
unfolding run run_loaded load_rules list_unprocessed_transactions list_enabled_categorization_rules
    list_active_bank_account_numbers
run-drains lower db distinct =
    let d =
      run_rows-Drains lower (enabled_rules db) (active_accounts db) (unprocessed db)
        (record { transactions_processed = 0; transactions_failed = 0 }) db
        (DistinctIds-where_rows _ db.raw distinct) (unprocessed-new db.processed db.raw) in
    (
      d.last,
      ap (λ r. (ok r.0, r.1)) d.counts ∙ ground arith,
      d.same_raw,
      rw d.same_raw (nothing_left db.processed d.last.processed db.raw d.kept d.done),
    )
