-- ===== src/Store/Waivers/Missing.antt =====
-- Who ListMembersMissingPayment lists, and in which order.
use bank_system_public.Base.{
  ℕ, ◌≡◌, ◌⊎◌, ◌≤◌, ◌<◌, refl, Bool, true, false, ◌||◌, List, [], ◌∷◌, arith, ◌==◌, any_row, All,
  All-map, Bool-cases, inl, inr,
}
use bank_system_public.Calendar.{MonthRef, month_of, month_index}
use bank_system_public.Store.Schema.{Member, Db}
use bank_system_public.Store.Monad.{
  Failure, failed, Result, ok, err, Session, attempt, next_fails, later,
}
use bank_system_public.Store.Waivers.{
  list_members_missing_payment, MissingMember, is_missing, arrears, goes_before, insert_missing,
  missing_rows,
}
use bank_system_public.Store.Waivers.Owed.{
  IsDue, IsOpen, IsTotal, missed_since-IsTotalFrom, missing_iff,
}

abbrev is_row_of : ℕ → MissingMember → Bool
is_row_of n r = r.member_number == n

row_of-insert_missing :
    (n : ℕ) (a : MissingMember) (rows : List MissingMember)
    → any_row (is_row_of n) (insert_missing a rows) ≡ (is_row_of n a || any_row (is_row_of n) rows)
unfolding insert_missing
row_of-insert_missing n a [] = refl
row_of-insert_missing n a (b ∷ bs) = ground (arith, row_of-insert_missing n a bs)

-- The list has a row of every member whom the WHERE clause picks.
lists_missing :
    (db : Db) (month : MonthRef) (members : List Member)
    → All
        (λ m.
          is_missing db month m ≡ true
          → any_row (is_row_of m.member_number) (missing_rows db month members) ≡ true)
        members
unfolding missing_rows
lists_missing db month [] = tt
lists_missing db month (m ∷ ms) =
    (first, All-map _ _ (λ x h missing. one x (h missing)) ms (lists_missing db month ms))
  where
    first :
        is_missing db month m ≡ true
        → any_row (is_row_of m.member_number) (missing_rows db month (m ∷ ms)) ≡ true
    first e = rw e (
        ground
          (arith, row_of-insert_missing m.member_number (arrears db m) (missing_rows db month ms)))

    one :
        (x : Member)
        → any_row (is_row_of x.member_number) (missing_rows db month ms) ≡ true
        → any_row (is_row_of x.member_number) (missing_rows db month (m ∷ ms)) ≡ true
    one x h = elim (Bool-cases (is_missing db month m)) [
      | inl e ↦ rw e (
          ground (
            arith,
            h,
            row_of-insert_missing x.member_number (arrears db m) (missing_rows db month ms),
          ))
      | inr e ↦ rw e h
    ]

-- Each row goes before all later ones, by the ORDER BY clause.
abbrev IsSorted : List MissingMember → Type 0
IsSorted [] = Unit
IsSorted (a ∷ rows) = All (λ b. goes_before a b ≡ true) rows × IsSorted rows

goes_before_total : (a b : MissingMember) → goes_before a b ≡ false → goes_before b a ≡ true
goes_before_total a b h = ground arith

goes_before_trans :
    (a b c : MissingMember)
    → goes_before a b ≡ true
    → goes_before b c ≡ true
    → goes_before a c ≡ true
goes_before_trans a b c h k = ground arith

All-insert_missing :
    (P : MissingMember → Type 0) (a : MissingMember) (rows : List MissingMember)
    → P a
    → All P rows
    → All P (insert_missing a rows)
unfolding insert_missing
All-insert_missing P a [] p h = (p, tt)
All-insert_missing P a (b ∷ bs) p h = elim (Bool-cases (goes_before a b)) [
  | inl e ↦ rw e (p, h)
  | inr e ↦ rw e (h.0, All-insert_missing P a bs p h.1)
]

insert_missing-IsSorted :
    (a : MissingMember) (rows : List MissingMember)
    → IsSorted rows
    → IsSorted (insert_missing a rows)
unfolding insert_missing
insert_missing-IsSorted a [] h = (tt, tt)
insert_missing-IsSorted a (b ∷ bs) h = elim (Bool-cases (goes_before a b)) [
  | inl e ↦ rw e (
    (
      e,
      All-map (λ c. goes_before b c ≡ true) (λ c. goes_before a c ≡ true)
          (λ c k. goes_before_trans a b c e k) bs h.0,
    ),
    h,
  )
  | inr e ↦ rw e (
    All-insert_missing (λ c. goes_before b c ≡ true) a bs (goes_before_total a b e) h.0,
    insert_missing-IsSorted a bs h.1,
  )
]

missing_rows-IsSorted :
    (db : Db) (month : MonthRef) (members : List Member) → IsSorted (missing_rows db month members)
unfolding missing_rows
missing_rows-IsSorted db month [] = tt
missing_rows-IsSorted db month (m ∷ ms) = elim (Bool-cases (is_missing db month m)) [
  | inl e ↦ rw e (
      insert_missing-IsSorted (arrears db m) (missing_rows db month ms)
        (missing_rows-IsSorted db month ms))
  | inr e ↦ rw e (missing_rows-IsSorted db month ms)
]

-- The row is that of a member who owes the month, with the number of months that the member owes and
-- whether a payment of the member has ever covered a month.
abbrev pub IsOf : Db → MonthRef → Member → MissingMember → Type 0
IsOf db month m r =
    (r.member_number ≡ m.member_number)
    × IsDue db.today m.fee_start_date m.fee_stop_date (month_index month)
    × IsOpen db m.member_number month
    × IsTotal db m r.total_missed_months
    × (r.has_ever_paid ≡ any_row (λ c. c.member_number == m.member_number) db.coverage)

abbrev pub OfSome : Db → MonthRef → List Member → MissingMember → Type 0
OfSome db month [] r = ⊥
OfSome db month (m ∷ ms) r = IsOf db month m r ⊎ OfSome db month ms r

rows_of :
    (db : Db) (month : MonthRef)
    → 2 ≤ month_index (month_of db.today)
    → (members : List Member) → All (OfSome db month members) (missing_rows db month members)
unfolding missing_rows
rows_of db month late [] = tt
rows_of db month late (m ∷ ms) =
    let rest =
      All-map (OfSome db month ms) (OfSome db month (m ∷ ms)) (λ r h. inr h) _
        (rows_of db month late ms) in
    elim (Bool-cases (is_missing db month m)) [
      | inl e ↦
          let (due, bare) = (missing_iff db month m late).0 e in
          rw e (
            All-insert_missing (OfSome db month (m ∷ ms)) (arrears db m) (missing_rows db month ms)
              (inl (refl, due, bare, missed_since-IsTotalFrom db m late m.fee_start_date, refl))
              rest)
      | inr e ↦ rw e rest
    ]

-- A row with more missed months comes first; of those with as many, the one with the smaller number.
abbrev pub ComesFirst : MissingMember → MissingMember → Type 0
ComesFirst a b =
    (b.total_missed_months < a.total_missed_months)
    ⊎ ((a.total_missed_months ≡ b.total_missed_months) × (a.member_number ≤ b.member_number))

abbrev pub IsOrdered : List MissingMember → Type 0
IsOrdered [] = Unit
IsOrdered (a ∷ rows) = All (ComesFirst a) rows × IsOrdered rows

comes_first : (a b : MissingMember) → goes_before a b ≡ true → ComesFirst a b
comes_first a b h = ground arith

IsOrdered-IsSorted : (rows : List MissingMember) → IsSorted rows → IsOrdered rows
IsOrdered-IsSorted [] h = tt
IsOrdered-IsSorted (a ∷ rows) h = (
  All-map (λ b. goes_before a b ≡ true) (ComesFirst a) (comes_first a) rows h.0,
  IsOrdered-IsSorted rows h.1,
)

-- The member owes the month and is in the list, or does not owe it.
abbrev pub IsListed : Db → MonthRef → List MissingMember → Member → Type 0
IsListed db month rows m =
    (any_row (λ r. r.member_number == m.member_number) rows ≡ true)
    ⊎ ¬ (
        IsDue db.today m.fee_start_date m.fee_stop_date (month_index month)
        × IsOpen db m.member_number month)

abbrev pub Lists : Db → MonthRef → Result Failure (List MissingMember) × Session → Type 0
Lists db month (ok rows, s) =
    All (OfSome db month db.members) rows × All (IsListed db month rows) db.members × IsOrdered rows
Lists db month (err e, s) = e ≡ failed

pub list_members_missing_payment-Lists :
    (month : MonthRef) (s : Session)
    → 2 ≤ month_index (month_of s.db.today)
    → Lists s.db month (list_members_missing_payment month s)
unfolding list_members_missing_payment
list_members_missing_payment-Lists month s late = ends (next_fails s.faults)
  where
    listed :
        (m : Member)
        → (is_missing s.db month m ≡ true
            → any_row (is_row_of m.member_number) (missing_rows s.db month s.db.members) ≡ true)
        → IsListed s.db month (missing_rows s.db month s.db.members) m
    listed m h = elim (Bool-cases (is_missing s.db month m)) [
      | inl e ↦ inl (h e)
      | inr e ↦ inr (λ o. let owing = (missing_iff s.db month m late).1 o in ground arith)
    ]

    ends :
        (fails : Bool)
        → Lists s.db month (
            attempt fails
              (λ db. ok (missing_rows db month db.members, db))
              (record s { faults = later s.faults }))
    ends true = refl
    ends false = (
      rows_of s.db month late s.db.members,
      All-map _ _ listed s.db.members (lists_missing s.db month s.db.members),
      IsOrdered-IsSorted (missing_rows s.db month s.db.members)
          (missing_rows-IsSorted s.db month s.db.members),
    )
