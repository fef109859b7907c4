-- ===== src/Sync/Columns/Row.antt =====
-- What toTransaction reads in a row of an answer of Fio (internal/fio/types.go): which column is which
-- field, and when the row is malformed.
use bank_system_public.Base.{
  ◌≡◌, ◌≢◌, ◌⊎◌, inl, inr, refl, String, Bool-cases, Option, none, some, arith, str_eq, eq_iff,
}
use mathlib.Core.Path.{subst}
use bank_system_public.Base.Int.{ℤ}
use bank_system_public.Calendar.{Date}
use bank_system_public.Store.{Result, ok, err}
use bank_system_public.Sync.{FioTransactionOf}
use bank_system_public.Sync.Columns.{
  FioColumn, RawRow, RowError, missing_id, missing_date, bad_date, missing_amount, missing_currency,
  not_marshaled, Parsing, present, text_or_literal, and_then, get_string, get_float64, get_int64,
  row_transaction, needs, to_transaction,
}

-- The JSON text of a column that is there and not null.
abbrev pub HasValue : RawRow → String → String → Type 0
HasValue row col raw =
    (c : FioColumn) × (row col ≡ some (some c)) × (c.value ≡ raw) × (raw ≢ "") × (raw ≢ "null")

abbrev pub HasNoValue : RawRow → String → Type 0
HasNoValue row col =
    (row col ≡ none)
    ⊎ (row col ≡ some none)
    ⊎ ((c : FioColumn) × (row col ≡ some (some c)) × ((c.value ≡ "") ⊎ (c.value ≡ "null")))

-- What `present` finds is the value, if there is one.
abbrev Found : RawRow → String → Option String → Type 0
Found row col none = HasNoValue row col
Found row col (some raw) = HasValue row col raw

found : (row : RawRow) (col : String) → Found row col (present (row col))
found row col = at (row col) refl
  where
    value : (c : FioColumn) → row col ≡ some (some c) → Found row col (present (some (some c)))
    value c e = elim (Bool-cases (str_eq c.value "")) [
      | inl t ↦ rw t (inr (inr (c, e, inl ((eq_iff c.value "").0 t))))
      | inr t ↦ elim (Bool-cases (str_eq c.value "null")) [
        | inl u ↦ rw t (rw u (inr (inr (c, e, inr ((eq_iff c.value "null").0 u)))))
        | inr u ↦ rw t (
            rw u (
              c,
              e,
              refl,
              (λ same. let clash = (eq_iff c.value "").1 same in ground arith),
              (λ same. let clash = (eq_iff c.value "null").1 same in ground arith),
            ))
      ]
    ]

    at : (o : Option (Option FioColumn)) → row col ≡ o → Found row col (present o)
    at none e = inl e
    at (some none) e = inr (inl e)
    at (some (some c)) e = value c e

-- The two ways a check with `needs` goes.
needs-cases :
    {A B : Type 0} (P : Result RowError B → Type 0) (o : Option A) (e : RowError)
    (f : A → Result RowError B)
    → (o ≡ none → P (err e))
    → ((a : A) → o ≡ some a → P (f a))
    → P (needs o e f)
needs-cases P none e f g h = g refl
needs-cases P (some a) e f g h = h a refl

module _ {Amount Time : Type 0} (go : Parsing Amount Time) where
  -- The text of a column: the JSON string that its value is, or else the literal text of the value;
  -- none if there is no value.
  abbrev pub IsText : RawRow → String → Option String → Type 0
  IsText row col none = HasNoValue row col
  IsText row col (some s) =
      (raw : String) × HasValue row col raw
      × ((go.read_string raw ≡ some s) ⊎ ((go.read_string raw ≡ none) × (s ≡ raw)))

  abbrev pub IsNumber : RawRow → String → Amount → Type 0
  IsNumber row col a = (raw : String) × HasValue row col raw × (go.read_float raw ≡ some a)

  abbrev pub NoNumber : RawRow → String → Type 0
  NoNumber row col =
      HasNoValue row col ⊎ ((raw : String) × HasValue row col raw × (go.read_float raw ≡ none))

  get_string-IsText : (row : RawRow) (col : String) → IsText row col (get_string go row col)
  get_string-IsText row col = text (present (row col)) (found row col)
    where
      literal :
          (raw : String) (o : Option String)
          → go.read_string raw ≡ o
          → HasValue row col raw
          → IsText row col (some (text_or_literal o raw))
      literal raw none e v = (raw, v, inr (e, refl))
      literal raw (some s) e v = (raw, v, inl e)

      text :
          (o : Option String)
          → Found row col o
          → IsText row col (and_then o (λ raw. some (text_or_literal (go.read_string raw) raw)))
      text none v = v
      text (some raw) v = literal raw (go.read_string raw) refl v

  abbrev Number : RawRow → String → Option Amount → Type 0
  Number row col none = NoNumber row col
  Number row col (some a) = IsNumber row col a

  get_float64-Number : (row : RawRow) (col : String) → Number row col (get_float64 go row col)
  get_float64-Number row col = number (present (row col)) (found row col)
    where
      float :
          (raw : String) (o : Option Amount)
          → go.read_float raw ≡ o
          → HasValue row col raw
          → Number row col o
      float raw none e v = inr (raw, v, e)
      float raw (some a) e v = (raw, v, e)

      number : (o : Option String) → Found row col o → Number row col (and_then o go.read_float)
      number none v = inl v
      number (some raw) v = float raw (go.read_float raw) refl v

  abbrev Integer : RawRow → String → Option ℤ → Type 0
  Integer row col none = NoNumber row col
  Integer row col (some n) = (f : Amount) × IsNumber row col f × (n ≡ go.to_int64 f)

  get_int64-Integer : (row : RawRow) (col : String) → Integer row col (get_int64 go row col)
  get_int64-Integer row col = integer (get_float64 go row col) (get_float64-Number row col)
    where
      integer :
          (o : Option Amount)
          → Number row col o
          → Integer row col (and_then o (λ f. some (go.to_int64 f)))
      integer none v = v
      integer (some f) v = (f, v, refl)

  -- The transaction of a row: which column is which field.
  pub record IsReadAs (row : RawRow) (tx : FioTransactionOf ℤ Amount) : Type 0 where
    pub id : (f : Amount) × IsNumber row "column22" f × (tx.fio_transaction_id ≡ go.to_int64 f)
    pub date :
        (text : String) × (parsed : Time) × IsText row "column0" (some text)
        × (go.parse_date text ≡ some parsed)
        × (go.parse_day (go.format_day parsed) ≡ some tx.transaction_date)
    pub amount : IsNumber row "column1" tx.amount
    pub currency : IsText row "column14" (some tx.currency)
    pub counter_account_number : IsText row "column2" tx.counter_account_number
    pub counter_bank_code : IsText row "column3" tx.counter_bank_code
    pub constant_symbol : IsText row "column4" tx.constant_symbol
    pub variable_symbol : IsText row "column5" tx.variable_symbol
    pub specific_symbol : IsText row "column6" tx.specific_symbol
    pub user_identification : IsText row "column7" tx.user_identification
    pub transaction_type : IsText row "column8" tx.transaction_type
    pub executor : IsText row "column9" tx.executor
    pub counter_account_name : IsText row "column10" tx.counter_account_name
    pub counter_bank_name : IsText row "column12" tx.counter_bank_name
    pub message_for_recipient : IsText row "column16" tx.message_for_recipient
    pub instruction_id : IsText row "column17" tx.instruction_id
    pub specification : IsText row "column18" tx.specification
    pub comment : IsText row "column25" tx.comment
    pub bic : IsText row "column26" tx.bic
    pub payload : go.marshal row ≡ some tx.raw_payload

  -- What is wrong with a row, by the error.
  unfoldable pub IsMalformed : RawRow → RowError → Type 0
  IsMalformed row missing_id = NoNumber row "column22"
  IsMalformed row missing_date = HasNoValue row "column0"
  IsMalformed row bad_date =
      (text : String) × IsText row "column0" (some text)
      × ((go.parse_date text ≡ none)
          ⊎ ((parsed : Time) × (go.parse_date text ≡ some parsed)
              × (go.parse_day (go.format_day parsed) ≡ none)))
  IsMalformed row missing_amount = NoNumber row "column1"
  IsMalformed row missing_currency = HasNoValue row "column14"
  IsMalformed row not_marshaled = go.marshal row ≡ none

  unfoldable pub RowEnds : RawRow → Result RowError (FioTransactionOf ℤ Amount) → Type 0
  RowEnds row (ok tx) = IsReadAs row tx
  RowEnds row (err e) = IsMalformed row e

  pub to_transaction-RowEnds : (row : RawRow) → RowEnds row (to_transaction go row)
  unfolding to_transaction RowEnds IsMalformed
  to_transaction-RowEnds row =
      needs-cases (RowEnds row) (get_int64 go row "column22") missing_id _
        (λ e. subst (Integer row "column22") e (get_int64-Integer row "column22"))
        (λ id i.
          needs-cases (RowEnds row) (get_string go row "column0") missing_date _
            (λ e. subst (IsText row "column0") e (get_string-IsText row "column0"))
            (λ text t.
              needs-cases (RowEnds row) (go.parse_date text) bad_date _
                (λ e. (text, dated text t, inl e))
                (λ parsed p.
                  needs-cases (RowEnds row) (go.parse_day (go.format_day parsed)) bad_date _
                    (λ e. (text, dated text t, inr (parsed, p, e)))
                    (λ date d.
                      needs-cases (RowEnds row) (get_float64 go row "column1") missing_amount _
                        (λ e. subst (Number row "column1") e (get_float64-Number row "column1"))
                        (λ amount a.
                          needs-cases (RowEnds row) (get_string go row "column14") missing_currency
                            _
                            (λ e.
                              subst (IsText row "column14") e (get_string-IsText row "column14"))
                            (λ currency c.
                              needs-cases (RowEnds row) (go.marshal row) not_marshaled _ (λ e. e)
                                (λ payload m.
                                  whole id date amount currency payload
                                    (subst (Integer row "column22") i
                                      (get_int64-Integer row "column22"))
                                    (text, parsed, dated text t, p, d)
                                    (subst (Number row "column1") a
                                      (get_float64-Number row "column1"))
                                    (subst (IsText row "column14") c
                                      (get_string-IsText row "column14"))
                                    m)))))))
    where
      dated :
          (text : String)
          → get_string go row "column0" ≡ some text
          → IsText row "column0" (some text)
      dated text t = subst (IsText row "column0") t (get_string-IsText row "column0")

      whole :
          (id : ℤ) (date : Date) (amount : Amount) (currency payload : String)
          → Integer row "column22" (some id)
          → ((text : String) × (parsed : Time) × IsText row "column0" (some text)
              × (go.parse_date text ≡ some parsed)
              × (go.parse_day (go.format_day parsed) ≡ some date))
          → IsNumber row "column1" amount
          → IsText row "column14" (some currency)
          → go.marshal row ≡ some payload
          → IsReadAs row (row_transaction go row id date amount currency payload)
      whole id date amount currency payload i d a c m = record {
        id = i;
        date = d;
        amount = a;
        currency = c;
        counter_account_number = get_string-IsText row "column2";
        counter_bank_code = get_string-IsText row "column3";
        constant_symbol = get_string-IsText row "column4";
        variable_symbol = get_string-IsText row "column5";
        specific_symbol = get_string-IsText row "column6";
        user_identification = get_string-IsText row "column7";
        transaction_type = get_string-IsText row "column8";
        executor = get_string-IsText row "column9";
        counter_account_name = get_string-IsText row "column10";
        counter_bank_name = get_string-IsText row "column12";
        message_for_recipient = get_string-IsText row "column16";
        instruction_id = get_string-IsText row "column17";
        specification = get_string-IsText row "column18";
        comment = get_string-IsText row "column25";
        bic = get_string-IsText row "column26";
        payload = m;
      }
