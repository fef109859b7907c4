-- ===== src/Store/Waivers/Owed.antt =====
-- Which months a member owes, said without the WHERE clauses, and how the member_arrears view counts
-- them. A month is given by its index.
use Prim.Native.Nat.{min}
use bank_system_public.Base.{
  ℕ, zero, suc, ◌+◌, ◌-◌, ◌<◌, ◌≤◌, ◌≡◌, refl, ◌∙◌, sym, ◌↔◌, true, false, ◌&&◌, Option, none, some,
  List, [], ◌∷◌, arith, ◌==◌, ==_iff, leb, ltb, length, any_row, All, All-map, Bool-cases, inl, inr,
  if◌then◌else◌,
}
use bank_system_public.Calendar.{
  Date, MonthRef, month_of, month_index, month_from_index, same_month,
}
use bank_system_public.Store.Schema.{Member, Db}
use bank_system_public.Store.Waivers.{
  is_unsettled, last_due, stop_or_today, started_by, missed_from, missed_since, is_missing,
}

abbrev pub HasStarted : Option Date → ℕ → Type 0
HasStarted none k = ⊥
HasStarted (some start) k = month_index (month_of start) ≤ k

abbrev pub HasNotStopped : Option Date → ℕ → Type 0
HasNotStopped none k = Unit
HasNotStopped (some stop) k = k ≤ month_index (month_of stop)

-- From the month in which the fee starts to that in which it stops, and no later than two months ago.
abbrev pub IsDue : Date → Option Date → Option Date → ℕ → Type 0
IsDue today start stop k =
    HasStarted start k × HasNotStopped stop k × (k + 2 ≤ month_index (month_of today))

-- No payment covers the month, and no waiver.
abbrev pub IsOpen : Db → ℕ → MonthRef → Type 0
IsOpen db member month =
    (any_row (λ c. c.member_number == member && same_month c.covers month) db.coverage ≡ false)
    × (any_row (λ w. w.member_number == member && same_month w.covers month) db.waivers ≡ false)

-- The member, with a fee from a date on, owes the month.
abbrev pub OwesFrom : Db → Member → Option Date → ℕ → Type 0
OwesFrom db m start k =
    IsDue db.today start m.fee_stop_date k × IsOpen db m.member_number (month_from_index k)

abbrev pub Owes : Db → Member → ℕ → Type 0
Owes db m k = OwesFrom db m m.fee_start_date k

abbrev pub Ascending : List ℕ → Type 0
Ascending [] = Unit
Ascending (k ∷ ks) = All (λ j. k < j) ks × Ascending ks

-- The number of months that the member owes.
abbrev pub IsTotalFrom : Db → Member → Option Date → ℕ → Type 0
IsTotalFrom db m start total =
    (owed : List ℕ) × Ascending owed
    × ((k : ℕ) → (any_row (λ j. j == k) owed ≡ true) ↔ OwesFrom db m start k)
    × (total ≡ length owed)

abbrev pub IsTotal : Db → Member → ℕ → Type 0
IsTotal db m total = IsTotalFrom db m m.fee_start_date total

pub IsOpen-iff :
    (db : Db) (member : ℕ) (month : MonthRef)
    → (is_unsettled db member month ≡ true) ↔ IsOpen db member month
IsOpen-iff db member month = ground arith

-- Today is not in the first two months of the calendar.
module _ (today : Date) (late : 2 ≤ month_index (month_of today)) where
  abbrev last : Option Date → ℕ
  last stop =
      min (month_index (month_of (stop_or_today stop today))) (month_index (month_of today) - 2)

  pub IsDue-iff :
      (start stop : Option Date) (k : ℕ)
      → ((started_by start k && leb k (last stop)) ≡ true) ↔ IsDue today start stop k
  IsDue-iff none none k = ground arith
  IsDue-iff none (some stop) k = ground arith
  IsDue-iff (some start) none k = ground arith
  IsDue-iff (some start) (some stop) k = ground arith

-- The months that missed_from counts.
owed_from : Db → ℕ → ℕ → ℕ → List ℕ
owed_from db member zero index = []
owed_from db member (suc n) index =
    let rest = owed_from db member n (index + 1) in
    if is_unsettled db member (month_from_index index) then index ∷ rest else rest

owed_from-count :
    (db : Db) (member n index : ℕ)
    → missed_from db member n index ≡ length (owed_from db member n index)
unfolding missed_from owed_from
owed_from-count db member zero index = refl
owed_from-count db member (suc n) index =
    elim (Bool-cases (is_unsettled db member (month_from_index index))) [
      | inl e ↦ rw e (omega (arith, owed_from-count db member n (index + 1)))
      | inr e ↦ rw e (omega (arith, owed_from-count db member n (index + 1)))
    ]

owed_from-least :
    (db : Db) (member n index : ℕ) → All (λ j. index ≤ j) (owed_from db member n index)
unfolding owed_from
owed_from-least db member zero index = tt
owed_from-least db member (suc n) index =
    let rest =
      All-map (λ j. index + 1 ≤ j) (λ j. index ≤ j) (λ j h. omega (arith, h)) _
        (owed_from-least db member n (index + 1)) in
    elim (Bool-cases (is_unsettled db member (month_from_index index))) [
      | inl e ↦ rw e (omega arith, rest)
      | inr e ↦ rw e rest
    ]

owed_from-Ascending : (db : Db) (member n index : ℕ) → Ascending (owed_from db member n index)
unfolding owed_from
owed_from-Ascending db member zero index = tt
owed_from-Ascending db member (suc n) index =
    elim (Bool-cases (is_unsettled db member (month_from_index index))) [
      | inl e ↦ rw e (
        All-map (λ j. index + 1 ≤ j) (λ j. index < j) (λ j h. omega (arith, h)) _
            (owed_from-least db member n (index + 1)),
        owed_from-Ascending db member n (index + 1),
      )
      | inr e ↦ rw e (owed_from-Ascending db member n (index + 1))
    ]

owed_from-has :
    (db : Db) (member n index k : ℕ)
    → any_row (λ j. j == k) (owed_from db member n index)
      ≡ (leb index k && ltb k (index + n) && is_unsettled db member (month_from_index k))
unfolding owed_from
owed_from-has db member zero index k = ground arith
owed_from-has db member (suc n) index k = elim (Bool-cases (index == k)) [
  | inl same ↦
      let e : index ≡ k = (==_iff index k).0 same in
      rw (sym e) (elim (Bool-cases (is_unsettled db member (month_from_index index))) [
        | inl u ↦ rw u (ground arith)
        | inr u ↦ rw u (ground (arith, owed_from-has db member n (index + 1) index))
      ])
  | inr other ↦ elim (Bool-cases (is_unsettled db member (month_from_index index))) [
    | inl u ↦ rw u (ground (arith, owed_from-has db member n (index + 1) k))
    | inr u ↦ rw u (ground (arith, owed_from-has db member n (index + 1) k))
  ]
]

-- The view counts the months that the member owes.
pub missed_since-IsTotalFrom :
    (db : Db) (m : Member)
    → 2 ≤ month_index (month_of db.today)
    → (start : Option Date) → IsTotalFrom db m start (missed_since db m start)
missed_since-IsTotalFrom db m late none =
    ([], tt, (λ k. ((λ h. ground arith), (λ o. absurd o.0.0))), refl)
missed_since-IsTotalFrom db m late (some start) = (
  owed_from db m.member_number months first,
  owed_from-Ascending db m.member_number months first,
  (λ k.
      let has = owed_from-has db m.member_number months first k in
      let due = IsDue-iff db.today late (some start) m.fee_stop_date k in
      let bare = IsOpen-iff db m.member_number (month_from_index k) in
      (
        (λ h. (due.0 (ground (arith, has, h)), bare.0 (ground (arith, has, h)))),
        (λ o. let d = due.1 o.0 in let u = bare.1 o.1 in has ∙ ground (arith, d, u)),
      )),
  owed_from-count db m.member_number months first,
)
  where
    first : ℕ
    first = month_index (month_of start)

    months : ℕ
    months = last_due db m + 1 - first

-- The WHERE clause of the query.
pub missing_iff :
    (db : Db) (month : MonthRef) (m : Member)
    → 2 ≤ month_index (month_of db.today)
    → (is_missing db month m ≡ true) ↔ (
        IsDue db.today m.fee_start_date m.fee_stop_date (month_index month)
        × IsOpen db m.member_number month)
unfolding is_missing
missing_iff db month m late =
    let due = IsDue-iff db.today late m.fee_start_date m.fee_stop_date (month_index month) in
    let bare = IsOpen-iff db m.member_number month in
    (
      (λ h. (due.0 (ground (arith, h)), bare.0 (ground (arith, h)))),
      (λ o. let d = due.1 o.0 in let u = bare.1 o.1 in ground (arith, d, u)),
    )
