-- ===== src/Sync/Columns/Read.antt =====
-- What Transactions answers for the rows of an answer of Fio (internal/fio/types.go), and which rows it
-- reads.
use bank_system_public.Base.{ℕ, suc, ◌+◌, ◌≡◌, refl, List, [], ◌∷◌, ◌++◌, length, All, ap, arith}
use mathlib.Core.Path.{subst}
use bank_system_public.Base.Int.{ℤ}
use bank_system_public.Store.{Result, ok, err}
use bank_system_public.Sync.{FioTransactionOf}
use bank_system_public.Sync.Columns.{
  RawRow, RowError, Parsing, to_transaction, transactions, transactions_from, add_transaction,
}
use bank_system_public.Sync.Columns.Row.{IsReadAs, IsMalformed, RowEnds, to_transaction-RowEnds}

module _ {Amount Time : Type 0} (go : Parsing Amount Time) where
  -- The transactions of all rows, in their order.
  abbrev pub ReadsAll : List RawRow → List (FioTransactionOf ℤ Amount) → Type 0
  ReadsAll [] [] = Unit
  ReadsAll (row ∷ rows) (tx ∷ txs) = IsReadAs go row tx × ReadsAll rows txs
  ReadsAll [] (tx ∷ txs) = ⊥
  ReadsAll (row ∷ rows) [] = ⊥

  -- The row at an index is malformed, and all before it are not.
  abbrev pub FailsAt : List RawRow → ℕ → RowError → Type 0
  FailsAt rows i e =
      (before : List RawRow) × (row : RawRow) × (after : List RawRow) × (rows
        ≡ before ++ row ∷ after)
      × (length before ≡ i)
      × All (λ r. (tx : FioTransactionOf ℤ Amount) × IsReadAs go r tx) before
      × IsMalformed go row e

  abbrev pub Reads : List RawRow → Result (ℕ × RowError) (List (FioTransactionOf ℤ Amount)) → Type 0
  Reads rows (ok txs) = ReadsAll rows txs
  Reads rows (err (i, e)) = FailsAt rows i e

  abbrev ReadsFrom :
      ℕ → List RawRow → Result (ℕ × RowError) (List (FioTransactionOf ℤ Amount)) → Type 0
  ReadsFrom i rows (ok txs) = ReadsAll rows txs
  ReadsFrom i rows (err (j, e)) = (k : ℕ) × (j ≡ i + k) × FailsAt rows k e

  next :
      (i : ℕ) (row : RawRow) (rows : List RawRow) (r : Result RowError (FioTransactionOf ℤ Amount))
      (rest : Result (ℕ × RowError) (List (FioTransactionOf ℤ Amount)))
      → RowEnds go row r
      → ReadsFrom (suc i) rows rest
      → ReadsFrom i (row ∷ rows) (add_transaction go i r rest)
  unfolding RowEnds
  next i row rows (err e) rest q p = (0, omega arith, ([], row, rows, refl, refl, tt, q))
  next i row rows (ok tx) (err (j, e)) q (k, at, (before, bad, after, split, size, fine, wrong)) = (
    suc k,
    omega (arith, at),
    (
      row ∷ before,
      bad,
      after,
      ap (λ t. row ∷ t) split,
      ap (λ n. suc n) size,
      ((tx, q), fine),
      wrong,
    ),
  )
  next i row rows (ok tx) (ok txs) q p = (q, p)

  transactions_from-ReadsFrom :
      (i : ℕ) (rows : List RawRow) → ReadsFrom i rows (transactions_from go i rows)
  unfolding transactions_from
  transactions_from-ReadsFrom i [] = tt
  transactions_from-ReadsFrom i (row ∷ rows) =
      next i row rows (to_transaction go row) (transactions_from go (suc i) rows)
        (to_transaction-RowEnds go row) (transactions_from-ReadsFrom (suc i) rows)

  -- Transactions answers with one transaction for each row, in their order, every field of which is
  -- what the row holds in the column that Fio documents for it. Or it answers with the index and the
  -- error of the first malformed row, without the transactions before it: the id, the date, the amount
  -- or the currency is missing or not one, or the row cannot be marshaled.
  pub transactions-Reads : (rows : List RawRow) → Reads rows (transactions go rows)
  unfolding transactions
  transactions-Reads rows =
      from_start (transactions_from go 0 rows) (transactions_from-ReadsFrom 0 rows)
    where
      from_start :
          (r : Result (ℕ × RowError) (List (FioTransactionOf ℤ Amount)))
          → ReadsFrom 0 rows r
          → Reads rows r
      from_start (ok txs) p = p
      from_start (err (i, e)) (k, at, fails) =
          let same : k ≡ i = omega (arith, at) in subst (λ n. FailsAt rows n e) same fails
