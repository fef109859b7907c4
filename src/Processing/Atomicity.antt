-- ===== src/Processing/Atomicity.antt =====
-- processOne is all or nothing: the processed row and its coverage are written together, or neither.
use bank_system_public.Base.{
  ℕ, ◌+◌, String, ◌≡◌, refl, ◌∙◌, ap, false, Option, none, some, List, [], ◌∷◌, ◌++◌, arith, str_eq,
  Bool-cases, inl, inr,
}
use bank_system_public.Calendar.{Date, covered_month}
use bank_system_public.Store.{
  Db, RawTransaction, CategorizationRule, CreateProcessedTransactionParams, Coverage, processed_row,
  add_coverage, is_processed, Result, ok, err, Failure, Session, find_member_by_variable_symbol,
  optional, in_transaction, create_processed_transaction, create_payment_coverage, Query, continue,
}
use bank_system_public.Store.Effects.{
  ReadOnly, ReadOnly-select_one, ReadOnly-optional, ReadOnly-pure, ReadOnly-bind,
}
use bank_system_public.Processing.{
  Outcome, transaction_direction, apply_member_rule, apply_rule, or_else, categorize, cover_default,
  insert_outcome, store_outcome, process_one, normalize_variable_symbol,
}

pub ReadOnly-find_member :
    (symbol : String) (date : Date) → ReadOnly (find_member_by_variable_symbol symbol date)
unfolding find_member_by_variable_symbol
ReadOnly-find_member symbol date = ReadOnly-select_one _

ReadOnly-apply_member_rule :
    (rule : CategorizationRule) (symbol : Option String) (date : Date)
    → ReadOnly (apply_member_rule rule symbol date)
unfolding apply_member_rule
ReadOnly-apply_member_rule rule none date = ReadOnly-pure none
ReadOnly-apply_member_rule rule (some symbol) date = elim (Bool-cases (str_eq symbol "")) [
  | inl e ↦ rw e (ReadOnly-pure none)
  | inr e ↦ rw e (
      ReadOnly-bind
        (optional (find_member_by_variable_symbol (normalize_variable_symbol symbol) date)) _
        (ReadOnly-optional _ (ReadOnly-find_member (normalize_variable_symbol symbol) date))
        (λ member. ReadOnly-pure _))
]

module _ (lower : ℕ → ℕ) where
  pub ReadOnly-apply_rule :
      (rule : CategorizationRule) (rt : RawTransaction) (direction : String)
      (accounts : List String)
      → ReadOnly (apply_rule lower rule rt direction accounts)
  unfolding apply_rule
  ReadOnly-apply_rule rule rt direction accounts = record {
    at = λ s.
        ground
          (arith, (ReadOnly-apply_member_rule rule rt.variable_symbol rt.transaction_date).at s);
  }

  ReadOnly-or_else :
      (rest : Query Outcome) (o : Option Outcome) → ReadOnly rest → ReadOnly (or_else lower rest o)
  ReadOnly-or_else rest none h = h
  ReadOnly-or_else rest (some o) h = ReadOnly-pure o

  pub ReadOnly-categorize :
      (rt : RawTransaction) (direction : String) (accounts : List String)
      (rules : List CategorizationRule)
      → ReadOnly (categorize lower rt direction accounts rules)
  unfolding categorize
  ReadOnly-categorize rt direction accounts [] = ReadOnly-pure _
  ReadOnly-categorize rt direction accounts (rule ∷ rules) =
      ReadOnly-bind (apply_rule lower rule rt direction accounts) _
        (ReadOnly-apply_rule rule rt direction accounts)
        (λ result.
          ReadOnly-or_else (categorize lower rt direction accounts rules) result
            (ReadOnly-categorize rt direction accounts rules))

abbrev pub params : RawTransaction → Outcome → CreateProcessedTransactionParams
params rt o = record {
  raw_transaction_id = rt.id;
  member_number = o.member_number;
  category_id = o.category_id;
  direction = transaction_direction rt.amount;
  matched_by = o.matched_by;
  categorization_rule_id = o.rule_id;
}

abbrev pub with_default_coverage : ℕ → Option ℕ → Date → List Coverage → List Coverage
with_default_coverage id none date rows = rows
with_default_coverage id (some member) date rows =
    add_coverage
      (record {
        processed_transaction_id = id;
        member_number = member;
        covers = covered_month date;
      })
      rows

-- The database with one more processed transaction, and its default coverage if it has a member.
abbrev pub stored : RawTransaction → Outcome → Db → Db
stored rt o db = record db {
  processed = db.processed ++ processed_row db.next_id (params rt o) ∷ [];
  coverage = with_default_coverage db.next_id o.member_number rt.transaction_date db.coverage;
  next_id = db.next_id + 1;
}

-- What storing an outcome did, by how it ended.
abbrev pub Stores : RawTransaction → Outcome → Db → Result Failure (Unit {0}) × Session → Type 0
Stores rt o db (ok _, s) = (is_processed db.processed rt ≡ false) × (s.db ≡ stored rt o db)
Stores rt o db (err e, s) = s.db ≡ db

pub store_outcome-Stores :
    (rt : RawTransaction) (o : Outcome) (s : Session) → Stores rt o s.db (store_outcome rt o s)
unfolding store_outcome in_transaction insert_outcome cover_default create_processed_transaction
    create_payment_coverage
store_outcome-Stores rt o s = ground arith

module _ (lower : ℕ → ℕ) (rt : RawTransaction) (rules : List CategorizationRule)
    (accounts : List String) where
  -- What processing one transaction did: it failed and left the database as it was, or the
  -- transaction was new and has been stored with what categorize decided about it.
  abbrev pub Processes : Session → Result Failure (Unit {0}) × Session → Type 0
  Processes s (ok _, s') =
      (o : Outcome) × ((categorize lower rt (transaction_direction rt.amount) accounts rules s).0
        ≡ ok o)
      × (is_processed s.db.processed rt ≡ false)
      × (s'.db ≡ stored rt o s.db)
  Processes s (err e, s') = s'.db ≡ s.db

  store-Processes :
      (s t : Session) (o : Outcome) (r : Result Failure (Unit {0}) × Session)
      → (categorize lower rt (transaction_direction rt.amount) accounts rules s).0 ≡ ok o
      → t.db ≡ s.db
      → Stores rt o t.db r
      → Processes s r
  store-Processes s t o (ok _, u) c e (new, done) = (o, c, rw (← e) new, done ∙ ap (stored rt o) e)
  store-Processes s t o (err x, u) c e same = same ∙ e

  -- Processing one transaction is all or nothing, whatever statement, BEGIN or COMMIT fails.
  pub process_one-Processes : (s : Session) → Processes s (process_one lower rt rules accounts s)
  unfolding process_one
  process_one-Processes s =
      go (categorize lower rt (transaction_direction rt.amount) accounts rules s).0
        (categorize lower rt (transaction_direction rt.amount) accounts rules s).1 refl
        ((ReadOnly-categorize lower rt (transaction_direction rt.amount) accounts rules).at s)
    where
      go :
          (r : Result Failure Outcome) (t : Session)
          → (categorize lower rt (transaction_direction rt.amount) accounts rules s).0 ≡ r
          → t.db ≡ s.db
          → Processes s (continue r (store_outcome rt) t)
      go (ok o) t c e =
          store-Processes s t o (store_outcome rt o t) c e (store_outcome-Stores rt o t)
      go (err x) t c e = e
