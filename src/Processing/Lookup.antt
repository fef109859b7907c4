-- ===== src/Processing/Lookup.antt =====
-- FindMemberByVariableSymbol: which member a variable symbol stands for on a date.
use bank_system_public.Base.{
  ℕ, String, ◌≡◌, refl, ap, ◌↔◌, Bool, true, false, none, some, List, [], ◌∷◌, ◌++◌, arith, All,
  Bool-cases, inl, inr, any_row, where_rows, Option-cases,
}
use bank_system_public.Calendar.{Date, before}
use bank_system_public.Store.{Db, PaymentIdentifier, claims_symbol, latest_identifier, find_member}

before_trans : (a b c : Date) → before a b ≡ false → before b c ≡ false → before a c ≡ false
unfolding before
before_trans a b c h k = ground arith

before_asymm : (a b : Date) → before a b ≡ true → before b a ≡ false
unfolding before
before_asymm a b h = ground arith

before_irrefl : (a : Date) → before a a ≡ false
unfolding before
before_irrefl a = ground arith

module _ (p : PaymentIdentifier → Bool) where
  -- No row that satisfies the condition starts later.
  abbrev pub NoneLater : PaymentIdentifier → List PaymentIdentifier → Type 0
  NoneLater mpi rows =
      All (λ other. p other ≡ true → before mpi.valid_from other.valid_from ≡ false) rows

  NoneLater-trans :
      (a b : PaymentIdentifier) (rows : List PaymentIdentifier)
      → before a.valid_from b.valid_from ≡ false
      → NoneLater b rows
      → NoneLater a rows
  NoneLater-trans a b [] h k = tt
  NoneLater-trans a b (r ∷ rows) h k = (
    λ e. before_trans a.valid_from b.valid_from r.valid_from h (k.0 e),
    NoneLater-trans a b rows h k.1,
  )

  -- A row of the table that satisfies the condition, latest in its start among those that do.
  pub record IsLatest (mpi : PaymentIdentifier) (rows : List PaymentIdentifier) : Type 0 where
    pub front : List PaymentIdentifier
    pub back : List PaymentIdentifier
    pub listed : rows ≡ front ++ mpi ∷ back
    pub holds : p mpi ≡ true
    pub none_later : NoneLater mpi rows

  latest_identifier-none :
      (mpi : PaymentIdentifier) (rows : List PaymentIdentifier)
      → latest_identifier (where_rows p rows) ≡ none
      → NoneLater mpi rows
  unfolding latest_identifier
  latest_identifier-none mpi [] h = tt
  latest_identifier-none mpi (r ∷ rows) h =
      (λ e. absurd (ground arith), latest_identifier-none mpi rows (ground arith))

  IsLatest-cons :
      (r mpi : PaymentIdentifier) (rows : List PaymentIdentifier)
      → (p r ≡ true → before mpi.valid_from r.valid_from ≡ false)
      → IsLatest mpi rows
      → IsLatest mpi (r ∷ rows)
  IsLatest-cons r mpi rows h l = record {
    front = r ∷ l.front;
    back = l.back;
    listed = ap (λ t. r ∷ t) l.listed;
    holds = l.holds;
    none_later = (h, l.none_later);
  }

  latest_identifier-IsLatest :
      (rows : List PaymentIdentifier) (mpi : PaymentIdentifier)
      → latest_identifier (where_rows p rows) ≡ some mpi
      → IsLatest mpi rows
  unfolding latest_identifier
  latest_identifier-IsLatest [] mpi h = absurd (ground arith)
  latest_identifier-IsLatest (r ∷ rows) mpi h = elim (Bool-cases (p r)) [
    | inr skip ↦
        IsLatest-cons r mpi rows (λ e. absurd (ground arith))
          (latest_identifier-IsLatest rows mpi (ground arith))
    | inl take ↦ elim (Option-cases (latest_identifier (where_rows p rows))) [
      | inl only ↦
          let e : mpi ≡ r = ground arith in
          rw e (record {
            front = [];
            back = rows;
            listed = refl;
            holds = take;
            none_later = (λ _. before_irrefl r.valid_from, latest_identifier-none r rows only);
          })
      | inr (other, found) ↦ elim (Bool-cases (before r.valid_from other.valid_from)) [
        | inl older ↦
            let e : mpi ≡ other = ground arith in
            rw e (
              IsLatest-cons r other rows (λ _. before_asymm r.valid_from other.valid_from older)
                (latest_identifier-IsLatest rows other found))
        | inr newer ↦
            let e : mpi ≡ r = ground arith in
            rw e (record {
              front = [];
              back = rows;
              listed = refl;
              holds = take;
              none_later = (
                λ _. before_irrefl r.valid_from,
                NoneLater-trans r other rows newer
                    (latest_identifier-IsLatest rows other found).none_later,
              );
            })
      ]
    ]
  ]

latest_identifier-empty :
    (p : PaymentIdentifier → Bool) (rows : List PaymentIdentifier)
    → (latest_identifier (where_rows p rows) ≡ none) ↔ (any_row p rows ≡ false)
unfolding latest_identifier
latest_identifier-empty p [] = ground arith
latest_identifier-empty p (r ∷ rows) = ground (arith, latest_identifier-empty p rows)

-- The member that a symbol stands for on a date is that of an identifier with this symbol that is
-- valid on the date, and no other such identifier starts later.
pub find_member-IsLatest :
    (symbol : String) (date : Date) (db : Db) (n : ℕ)
    → find_member symbol date db ≡ some n
    → (mpi : PaymentIdentifier) × (mpi.member_number ≡ n)
      × IsLatest (claims_symbol symbol date) mpi db.identifiers
unfolding find_member
find_member-IsLatest symbol date db n h =
    elim (Option-cases
      (latest_identifier (where_rows (claims_symbol symbol date) db.identifiers))) [
        | inl none_found ↦ absurd (ground arith)
        | inr (mpi, found) ↦ (
          mpi,
          ground arith,
          latest_identifier-IsLatest (claims_symbol symbol date) db.identifiers mpi found,
        )
      ]

-- The symbol stands for no member exactly if no identifier with it is valid on the date.
pub find_member-none_iff :
    (symbol : String) (date : Date) (db : Db)
    → (find_member symbol date db ≡ none)
      ↔ (any_row (claims_symbol symbol date) db.identifiers ≡ false)
unfolding find_member
find_member-none_iff symbol date db =
    ground (arith, latest_identifier-empty (claims_symbol symbol date) db.identifiers)
