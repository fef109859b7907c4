-- ===== src/Processing/Reapply.antt =====
-- processing.ReapplyRule: one rule applied to the transactions that are already processed.
pub mod Writes
pub mod Protected
pub mod Earlier
use bank_system_public.Base.{
  ℕ, ◌+◌, String, Bool, true, false, ◌&&◌, Option, none, some, List, [], ◌∷◌, str_eq, ◌==◌, ltb,
  if◌then◌else◌,
}
use bank_system_public.Calendar.{Date}
use bank_system_public.Store.{
  RawTransaction, CategorizationRule, Candidate, Failure, Result, ok, err, Session, Action, Query,
  pure, raise, ◌>>=◌, ◌>>◌, optional, on_failure, in_transaction, list_reapply_candidates,
  reapply_categorization, delete_coverage_for_transaction, get_categorization_rule,
}
use bank_system_public.Processing.{Outcome, apply_rule, cover_default, load_rules}

-- processing.ReapplyResult
pub record ReapplyResult : Type 0 where
  pub changed : ℕ
  pub failed : ℕ

pub data ReapplyError : Type 0 where
  rule_not_found rule_disabled : ReapplyError
  database : Failure → ReapplyError

-- equalPointer, at the two types it is used at
abbrev pub equal_number : Option ℕ → Option ℕ → Bool
equal_number none none = true
equal_number (some a) (some b) = a == b
equal_number none (some b) = false
equal_number (some a) none = false

abbrev pub equal_text : Option String → Option String → Bool
equal_text none none = true
equal_text (some a) (some b) = str_eq a b
equal_text none (some b) = false
equal_text (some a) none = false

unfoldable pub is_current : Candidate → Outcome → Bool
is_current c o =
    o.category_id == c.category_id
    && equal_number o.member_number c.member_number
    && equal_text o.matched_by c.matched_by
    && equal_number o.rule_id c.categorization_rule_id

-- How writeOutcome leaves its transaction without a commit that went through: the row was edited by
-- hand meanwhile, a statement failed, COMMIT failed.
pub data Abort : Type 0 where
  kept_by_hand : Abort
  broken : Failure → Abort
  uncommitted : Failure → Abort

-- writeOutcome's two results.
pub record Written : Type 0 where
  pub changed : Bool
  pub failure : Option Failure

abbrev pub written : Result Abort (Unit {0}) → Written
written (ok _) = record { changed = true; failure = none }
written (err kept_by_hand) = record { changed = false; failure = none }
written (err (broken e)) = record { changed = false; failure = some e }
-- `return true, tx.Commit(requestContext)`
written (err (uncommitted e)) = record { changed = true; failure = some e }

-- The default coverage follows the member, if the member changed.
unfoldable pub move_coverage : Candidate → Outcome → Query (Unit {0})
move_coverage c o =
    if equal_number o.member_number c.member_number
    then pure tt
    else (delete_coverage_for_transaction c.id
        >> cover_default c.id o.member_number c.transaction_date)

abbrev pub unless_kept : Query (Unit {0}) → Bool → Action Abort (Unit {0})
unless_kept rest false = raise kept_by_hand
unless_kept rest true = on_failure rest broken

unfoldable pub rewrite : Candidate → Outcome → Action Abort (Unit {0})
rewrite c o =
    on_failure
      (reapply_categorization (record {
        id = c.id;
        category_id = o.category_id;
        member_number = o.member_number;
        matched_by = o.matched_by;
        categorization_rule_id = o.rule_id;
      }))
      broken
    >>= unless_kept (move_coverage c o)

unfoldable pub write_outcome : Candidate → Outcome → Session → Written × Session
write_outcome c o s =
    let (r, s') = in_transaction broken uncommitted (rewrite c o) s in
    if is_current c o then (record { changed = false; failure = none }, s) else (written r, s')

-- The raw fields that the rules read; the others are zero.
abbrev pub candidate_transaction : Candidate → RawTransaction
candidate_transaction c = record {
  id = 0;
  bank_account_id = 0;
  fio_transaction_id = 0;
  transaction_date = c.transaction_date;
  amount = c.amount;
  currency = "";
  counter_account_number = c.counter_account_number;
  counter_account_name = none;
  counter_bank_code = none;
  counter_bank_name = none;
  bic = none;
  variable_symbol = c.variable_symbol;
  specific_symbol = none;
  constant_symbol = c.constant_symbol;
  user_identification = c.user_identification;
  message_for_recipient = c.message_for_recipient;
  transaction_type = c.transaction_type;
  executor = none;
  specification = none;
  comment = c.comment;
  instruction_id = none;
  raw_payload = "";
}

-- `order`: the position of an enabled rule. A later entry of the map would replace an earlier one.
abbrev pub last_position : Option ℕ → Bool → ℕ → Option ℕ
last_position (some p) here index = some p
last_position none true index = some index
last_position none false index = none

unfoldable pub position_from : ℕ → ℕ → List CategorizationRule → Option ℕ
position_from index id [] = none
position_from index id (r ∷ rs) = last_position (position_from (index + 1) id rs) (r.id == id) index

abbrev pub position : ℕ → List CategorizationRule → Option ℕ
position = position_from 0

abbrev pub or_zero : Option ℕ → ℕ
or_zero none = 0
or_zero (some p) = p

abbrev pub goes_first : Option ℕ → ℕ → Bool
goes_first none target = false
goes_first (some p) target = ltb p target

-- The transaction is decided by an enabled rule that runs before the target.
unfoldable pub is_decided_earlier : List CategorizationRule → ℕ → Option ℕ → Bool
unfolding position_from
is_decided_earlier rules target_id none = false
is_decided_earlier rules target_id (some rule_id) =
    goes_first (position rule_id rules) (or_zero (position target_id rules))

abbrev pub count_written : Written × Session → ReapplyResult → ReapplyResult × Session
count_written (w, s) acc = (
  record {
    changed = acc.changed + (if w.changed then 1 else 0);
    failed = acc.failed + elim w.failure [ none ↦ 0 | some e ↦ 1 ];
  },
  s,
)

abbrev pub apply_found :
    Candidate → Result Failure (Option Outcome) × Session → ReapplyResult → ReapplyResult × Session
apply_found c (ok none, s) acc = (acc, s)
apply_found c (ok (some o), s) acc = count_written (write_outcome c o s) acc
apply_found c (err e, s) acc = (record acc { failed = acc.failed + 1 }, s)

module _ (lower : ℕ → ℕ) where
  unfoldable pub reapply_one :
      CategorizationRule
      → List CategorizationRule
      → List String
      → Candidate
      → ReapplyResult
      → Session
      → ReapplyResult × Session
  reapply_one target rules accounts c acc s =
      if is_decided_earlier rules target.id c.categorization_rule_id
      then (acc, s)
      else apply_found c (apply_rule lower target (candidate_transaction c) c.direction accounts s)
          acc

  unfoldable pub reapply_rows :
      CategorizationRule
      → List CategorizationRule
      → List String
      → List Candidate
      → ReapplyResult
      → Session
      → ReapplyResult × Session
  reapply_rows target rules accounts [] acc s = (acc, s)
  reapply_rows target rules accounts (c ∷ cs) acc s =
      let (acc', s') = reapply_one target rules accounts c acc s in
      reapply_rows target rules accounts cs acc' s'

  unfoldable pub reapply_loaded :
      CategorizationRule
      → List Candidate
      → List CategorizationRule × List String
      → Action ReapplyError ReapplyResult
  reapply_loaded target candidates (rules, accounts) s =
      let (r, s') =
        reapply_rows target rules accounts candidates (record { changed = 0; failed = 0 }) s in
      (ok r, s')

  unfoldable pub reapply_enabled : Date → CategorizationRule → Action ReapplyError ReapplyResult
  reapply_enabled from target = do
    loaded ← on_failure load_rules database
    candidates ← on_failure (list_reapply_candidates from) database
    reapply_loaded target candidates loaded

  unfoldable pub reapply_found :
      Date → Option CategorizationRule → Action ReapplyError ReapplyResult
  reapply_found from none = raise rule_not_found
  reapply_found from (some target) =
      if target.enabled then reapply_enabled from target else raise rule_disabled

  -- processing.ReapplyRule
  unfoldable pub reapply_rule : ℕ → Date → Action ReapplyError ReapplyResult
  reapply_rule rule_id from = do
    target ← on_failure (optional (get_categorization_rule rule_id)) database
    reapply_found from target
