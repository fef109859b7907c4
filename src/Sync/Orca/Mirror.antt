-- ===== src/Sync/Orca/Mirror.antt =====
-- What the statements of RunOrcaSync make of the rows of one member.
use bank_system_public.Base.{
  ℕ, String, Bool, true, false, ◌≡◌, refl, ◌∙◌, ap, Option, none, some, List, [], ◌∷◌, ◌++◌, eq_iff,
  ◌==◌, ==_refl, if◌then◌else◌, inl, inr, Bool-cases, first_row, any_row, update_rows, arith, All,
  All-map, All-append, All-rewritten, first_row-append, first_row-updated, first_row-other,
  first_row-rewritten,
}
use bank_system_public.Calendar.{Date}
use bank_system_public.Store.{Db, Member, PaymentIdentifier}
use bank_system_public.Store.OrcaSyncs.{put_member, is_default, default_row, put_default}
use bank_system_public.Sync.Orca.{OrcaMember, optional_field, member_of}

abbrev pub has_number : ℕ → Member → Bool
has_number n m = m.member_number == n

module _ (itoa : ℕ → String) where
  -- The default identifier follows the liability window; without a start there is no new identifier.
  abbrev pub Follows : ℕ → Option Date → Option Date → Db → Type 0
  Follows n (some start) stop db =
      first_row (is_default itoa n) db.identifiers ≡ some (default_row itoa n start stop)
  Follows n none stop db =
      All (λ mpi. is_default itoa n mpi ≡ true → mpi.valid_to ≡ stop) db.identifiers

module _ (parse_uuid : String → Option ℕ) (itoa : ℕ → String) where
  -- The member's row is what Orca sent.
  pub record IsMirrored (db : Db) (m : OrcaMember) : Type 0 where
    pub sub : Option ℕ
    pub committee : Option ℕ
    pub sub_read : optional_field parse_uuid m.sub ≡ some sub
    pub committee_read :
        optional_field parse_uuid m.workplace_executive_committee_sub ≡ some committee
    pub row : first_row (has_number m.member_number) db.members ≡ some (member_of m sub committee)
    pub window : Follows itoa m.member_number m.fee_start_date m.fee_stop_date db

module _ (parse_uuid : String → Option ℕ) (itoa : ℕ → String) where
  -- What was mirrored stays so when its row and its window do.
  pub IsMirrored-moved :
      (m : OrcaMember) (db db' : Db)
      → first_row (has_number m.member_number) db'.members
        ≡ first_row (has_number m.member_number) db.members
      → Follows itoa m.member_number m.fee_start_date m.fee_stop_date db'
      → IsMirrored parse_uuid itoa db m
      → IsMirrored parse_uuid itoa db' m
  IsMirrored-moved m db db' same window p = record {
    sub = p.sub;
    committee = p.committee;
    sub_read = p.sub_read;
    committee_read = p.committee_read;
    row = same ∙ p.row;
    window = window;
  }

pub put_member-own :
    (m : Member) (rows : List Member)
    → first_row (has_number m.member_number) (put_member m rows) ≡ some m
put_member-own m rows = elim (Bool-cases (any_row (has_number m.member_number) rows)) [
  | inl e ↦ rw e (
      first_row-rewritten (has_number m.member_number) (λ x. m) rows m
        (λ x t. (==_refl m.member_number, refl)) e)
  | inr e ↦ rw e (first_row-append (has_number m.member_number) m rows (==_refl m.member_number) e)
]

pub put_member-other :
    (n : ℕ) (m : Member) (rows : List Member)
    → (m.member_number == n) ≡ false
    → first_row (has_number n) (put_member m rows) ≡ first_row (has_number n) rows
put_member-other n m rows h = elim (Bool-cases (any_row (has_number m.member_number) rows)) [
  | inl e ↦ rw e (
      first_row-updated (has_number n) (has_number m.member_number) (λ x. m) rows
        (λ x t. (ground arith, h)))
  | inr e ↦ rw e (first_row-other (has_number n) rows m h)
]

module _ (itoa : ℕ → String) where
  is_default-row :
      (n : ℕ) (start : Date) (stop : Option Date)
      → is_default itoa n (default_row itoa n start stop) ≡ true
  is_default-row n start stop = let same = (eq_iff (itoa n) (itoa n)).1 refl in ground arith

  rewindowed :
      (n : ℕ) (start : Date) (stop : Option Date) (mpi : PaymentIdentifier)
      → is_default itoa n mpi ≡ true
      → record mpi { valid_from = start; valid_to = stop } ≡ default_row itoa n start stop
  rewindowed n start stop mpi h =
      let number : mpi.member_number ≡ n = ground arith in
      let symbol : mpi.variable_symbol ≡ itoa n =
        (eq_iff mpi.variable_symbol (itoa n)).0 (ground arith) in
      ap {B = PaymentIdentifier}
        (λ a. record mpi { member_number = a; valid_from = start; valid_to = stop }) number
      ∙ ap {B = PaymentIdentifier}
          (λ a. record (default_row itoa n start stop) { variable_symbol = a }) symbol

  pub put_default-own :
      (n : ℕ) (start : Date) (stop : Option Date) (rows : List PaymentIdentifier)
      → first_row (is_default itoa n) (put_default itoa n start stop rows)
        ≡ some (default_row itoa n start stop)
  put_default-own n start stop rows = elim (Bool-cases (any_row (is_default itoa n) rows)) [
    | inl e ↦ rw e (
        first_row-rewritten (is_default itoa n) _ rows (default_row itoa n start stop)
          (λ x t. (t, rewindowed n start stop x t)) e)
    | inr e ↦ rw e (
        first_row-append (is_default itoa n) (default_row itoa n start stop) rows
          (is_default-row n start stop) e)
  ]

  is_default-other :
      (n k : ℕ) (mpi : PaymentIdentifier)
      → (k == n) ≡ false
      → is_default itoa k mpi ≡ true
      → is_default itoa n mpi ≡ false
  is_default-other n k mpi h e = ground arith

  abbrev pub Dated : ℕ → Option Date → PaymentIdentifier → Type 0
  Dated n stop mpi = is_default itoa n mpi ≡ true → mpi.valid_to ≡ stop

  -- The default identifier of another member is rewritten.
  pub Follows-updated :
      (n k : ℕ) (f : PaymentIdentifier → PaymentIdentifier) (start stop : Option Date) (db : Db)
      → (k == n) ≡ false
      → ((mpi : PaymentIdentifier) → is_default itoa k (f mpi) ≡ is_default itoa k mpi)
      → Follows itoa n start stop db
      → Follows itoa n start stop
          (record db { identifiers = update_rows (is_default itoa k) f db.identifiers })
  Follows-updated n k f none stop db h same follows =
      All-rewritten (Dated n stop) (is_default itoa k) f db.identifiers
        (All-map _ _
          (λ mpi _ t dated e.
            let other = is_default-other n k (f mpi) h (same mpi ∙ t) in ground arith)
          db.identifiers follows)
        follows
  Follows-updated n k f (some start) stop db h same follows =
      first_row-updated (is_default itoa n) (is_default itoa k) f db.identifiers
        (λ mpi t. (is_default-other n k mpi h t, is_default-other n k (f mpi) h (same mpi ∙ t)))
      ∙ follows

  -- Another member gets a default identifier.
  Follows-added :
      (n k : ℕ) (first : Date) (last start stop : Option Date) (db : Db)
      → (k == n) ≡ false
      → Follows itoa n start stop db
      → Follows itoa n start stop
          (record db { identifiers = db.identifiers ++ default_row itoa k first last ∷ [] })
  Follows-added n k first last none stop db h follows =
      All-append (Dated n stop) db.identifiers _ follows (
        (λ e.
            let other =
              is_default-other n k (default_row itoa k first last) h
                (is_default-row k first last) in
            ground arith),
        tt,
      )
  Follows-added n k first last (some start) stop db h follows =
      first_row-other (is_default itoa n) db.identifiers (default_row itoa k first last)
        (is_default-other n k (default_row itoa k first last) h (is_default-row k first last))
      ∙ follows

  pub Follows-put_default :
      (n k : ℕ) (first : Date) (last start stop : Option Date) (db : Db)
      → (k == n) ≡ false
      → Follows itoa n start stop db
      → Follows itoa n start stop
          (record db { identifiers = put_default itoa k first last db.identifiers })
  Follows-put_default n k first last start stop db h follows =
      put (any_row (is_default itoa k) db.identifiers)
    where
      put :
          (b : Bool)
          → Follows itoa n start stop (record db {
            identifiers =
                if b
                then update_rows
                    (is_default itoa k)
                    (λ mpi. record mpi { valid_from = first; valid_to = last })
                    db.identifiers
                else db.identifiers ++ default_row itoa k first last ∷ [];
          })
      put true = Follows-updated n k _ start stop db h (λ mpi. refl) follows
      put false = Follows-added n k first last start stop db h follows

  -- A member without a start: its default identifiers end with its liability.
  pub Follows-ended :
      (n : ℕ) (stop : Option Date) (rows : List PaymentIdentifier)
      → All
          (Dated n stop)
          (update_rows (is_default itoa n) (λ mpi. record mpi { valid_to = stop }) rows)
  Follows-ended n stop [] = tt
  Follows-ended n stop (mpi ∷ rows) = (one (is_default itoa n mpi) refl, Follows-ended n stop rows)
    where
      one :
          (b : Bool)
          → is_default itoa n mpi ≡ b
          → Dated n stop (if b then record mpi { valid_to = stop } else mpi)
      one true t = λ _. refl
      one false t = λ e. ground arith
