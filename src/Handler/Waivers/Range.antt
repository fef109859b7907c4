-- ===== src/Handler/Waivers/Range.antt =====
-- What WaivePayment does to the waivers, month by month.
use bank_system_public.Base.{
  ℕ, zero, suc, ◌+◌, String, ◌≡◌, refl, ◌∙◌, sym, ap, Bool, true, false, Option, some, List, [],
  ◌∷◌, ◌++◌, arith, ◌⊎◌, inl, inr, All, All-append, All-map, any_row-append, where_rows,
  where_rows-append, Bool-cases,
}
use mathlib.Core.Path.{subst}
use mathlib.Core.List.{append-nil, append_assoc}
use bank_system_public.Base.Int.{ℤ}
use bank_system_public.Calendar.{MonthRef, month_from_index}
use bank_system_public.Store.{
  Db, Waiver, Session, Result, ok, err, continue, ◌>>=◌, require, on_failure, member_exists,
  is_paid, is_waived, is_unsettled, waives_month, add_waiver, payment_coverage_exists,
  create_payment_waiver, get_payment_waiver,
}
use bank_system_public.Store.Effects.{ReadOnly-select, ReadOnly-on_failure, after_ReadOnly}
use bank_system_public.Handler.Http.{HttpError, internal, parse_id, bad_request}
use bank_system_public.Handler.Waivers.{
  WaiveRequest, WaiveResponse, Months, requested_months, no_months, waive_month, waive_months,
  waive_payment,
}

abbrev waived_in : Db → ℕ → String → MonthRef → Db
waived_in db member reason m = record db { waivers = add_waiver member m reason db.now db.waivers }

abbrev Done :
    ℕ
    → String
    → Bool
    → MonthRef
    → WaiveResponse
    → Db
    → Result HttpError WaiveResponse × Session
    → Type 0
Done member reason is_range m acc db (ok acc', s') =
    (is_paid db member m ≡ true)
      × (acc'.skipped ≡ acc.skipped ++ m ∷ [])
      × (is_range ≡ true)
      × (s'.db ≡ db)
    ⊎ (is_paid db member m ≡ false)
      × (acc'.skipped ≡ acc.skipped)
      × (s'.db ≡ waived_in db member reason m)
Done member reason is_range m acc db (err e, s') =
    (s'.db ≡ db) ⊎ (is_paid db member m ≡ false) × (s'.db ≡ waived_in db member reason m)

waive_month-Done :
    (member : ℕ) (reason : String) (is_range : Bool) (m : MonthRef) (acc : WaiveResponse)
    (s : Session)
    → Done member reason is_range m acc s.db (waive_month member reason is_range m acc s)
unfolding waive_month payment_coverage_exists create_payment_waiver get_payment_waiver
waive_month-Done member reason is_range m acc s = ground arith

-- A waiver that the request has added: its member, its reason, a month that no payment covers.
pub record IsNew (db : Db) (member : ℕ) (reason : String) (w : Waiver) : Type 0 where
  pub of_member : w.member_number ≡ member
  pub with_reason : w.reason ≡ reason
  pub of_unpaid : is_paid db member w.covers ≡ false

-- Nothing has changed but waivers that are added after the ones there were.
abbrev pub Adds : ℕ → String → Db → Db → Type 0
Adds member reason db db' =
    (new : List Waiver) × (db' ≡ record db { waivers = db.waivers ++ new })
    × All (IsNew db member reason) new

module _ (member : ℕ) (reason : String) where
  Adds-nothing : (db db' : Db) → db' ≡ db → Adds member reason db db'
  Adds-nothing db db' e =
      ([], e ∙ ap (λ ws. record db { waivers = ws }) (sym (append-nil db.waivers)), tt)

  Adds-waiver :
      (db db' : Db) (m : MonthRef)
      → is_paid db member m ≡ false
      → db' ≡ waived_in db member reason m
      → Adds member reason db db'
  Adds-waiver db db' m h e = elim (Bool-cases (is_waived db member m)) [
    | inl w ↦ Adds-nothing db db' (e ∙ rw w refl)
    | inr w ↦ (
      record { member_number = member; covers = m; reason = reason; created_at = db.now } ∷ [],
      e ∙ rw w refl,
      (record { of_member = refl; with_reason = refl; of_unpaid = h }, tt),
    )
  ]

  Adds-trans :
      (db db' db'' : Db)
      → Adds member reason db db'
      → Adds member reason db' db''
      → Adds member reason db db''
  Adds-trans db db' db'' (new, e, h) (new', e', h') = (
    new ++ new',
    e' ∙ rw e (ap (λ ws. record db { waivers = ws }) (append_assoc db.waivers new new')),
    All-append (IsNew db member reason) new new' h
        (All-map (IsNew db' member reason) (IsNew db member reason) old new' h'),
  )
    where
      old : (w : Waiver) → IsNew db' member reason w → IsNew db member reason w
      old w n = record {
        of_member = n.of_member;
        with_reason = n.with_reason;
        of_unpaid = sym (ap (λ d. is_paid d member w.covers) e) ∙ n.of_unpaid;
      }

  -- What is settled stays settled.
  Adds-settled :
      (db db' : Db) (m : MonthRef)
      → Adds member reason db db'
      → is_unsettled db member m ≡ false
      → is_unsettled db' member m ≡ false
  Adds-settled db db' m (new, e, h) s =
      ap (λ d. is_unsettled d member m) e
      ∙ ground (arith, any_row-append (waives_month member m) db.waivers new)

  Adds-paid :
      (db db' : Db) (m : MonthRef)
      → Adds member reason db db'
      → is_paid db' member m ≡ is_paid db member m
  Adds-paid db db' m (new, e, h) = ap (λ d. is_paid d member m) e

settled-waived_in :
    (member : ℕ) (reason : String) (m : MonthRef) (db : Db)
    → is_unsettled (waived_in db member reason m) member m ≡ false
settled-waived_in member reason m db = ground (
  arith,
  any_row-append (waives_month member m) db.waivers
      (record { member_number = member; covers = m; reason = reason; created_at = db.now } ∷ []),
)

-- The months of a range.
abbrev pub month_list : ℕ → ℕ → List MonthRef
month_list zero index = []
month_list (suc n) index = month_from_index index ∷ month_list n (index + 1)

module _ (member : ℕ) (reason : String) where
  -- What the loop has done with a list of months.
  abbrev pub Waives :
      List MonthRef → WaiveResponse → Db → Result HttpError WaiveResponse × Session → Type 0
  Waives ms acc db (ok acc', s') =
      Adds member reason db s'.db
      × All (λ m. is_unsettled s'.db member m ≡ false) ms
      × (acc'.skipped ≡ acc.skipped ++ where_rows (is_paid db member) ms)
  Waives ms acc db (err e, s') = Adds member reason db s'.db

  Adds-Done :
      (is_range : Bool) (m : MonthRef) (acc : WaiveResponse) (db : Db)
      (r : Result HttpError WaiveResponse) (s' : Session)
      → Done member reason is_range m acc db (r, s')
      → Adds member reason db s'.db
  Adds-Done is_range m acc db (ok acc') s' (inl (p, k, i, e)) =
      Adds-nothing member reason db s'.db e
  Adds-Done is_range m acc db (ok acc') s' (inr (p, k, e)) =
      Adds-waiver member reason db s'.db m p e
  Adds-Done is_range m acc db (err x) s' (inl e) = Adds-nothing member reason db s'.db e
  Adds-Done is_range m acc db (err x) s' (inr (p, e)) = Adds-waiver member reason db s'.db m p e

  settled-Done :
      (is_range : Bool) (m : MonthRef) (acc acc' : WaiveResponse) (db : Db) (s' : Session)
      → Done member reason is_range m acc db (ok acc', s')
      → (is_unsettled s'.db member m ≡ false)
        × (acc'.skipped ≡ acc.skipped ++ where_rows (is_paid db member) (m ∷ []))
  settled-Done is_range m acc acc' db s' (inl (p, k, i, e)) =
      (ap (λ d. is_unsettled d member m) e ∙ rw p refl, k ∙ rw p refl)
  settled-Done is_range m acc acc' db s' (inr (p, k, e)) = (
    ap (λ d. is_unsettled d member m) e ∙ settled-waived_in member reason m db,
    k ∙ rw p (sym (append-nil acc.skipped)),
  )

  waive_months-Waives :
      (is_range : Bool) (n index : ℕ) (acc : WaiveResponse) (s : Session)
      → Waives (month_list n index) acc s.db (waive_months member reason is_range n index acc s)
  unfolding waive_months
  waive_months-Waives is_range zero index acc s =
      (Adds-nothing member reason s.db s.db refl, tt, sym (append-nil acc.skipped))
  waive_months-Waives is_range (suc n) index acc s =
      next (waive_month member reason is_range m acc s).0
        (waive_month member reason is_range m acc s).1
        (waive_month-Done member reason is_range m acc s)
        (λ acc' s'. waive_months-Waives is_range n (index + 1) acc' s')
    where
      m : MonthRef
      m = month_from_index index

      rest : List MonthRef
      rest = month_list n (index + 1)

      after :
          (acc' : WaiveResponse) (s' : Session) (r : Result HttpError WaiveResponse) (t : Session)
          → Done member reason is_range m acc s.db (ok acc', s')
          → Waives rest acc' s'.db (r, t)
          → Waives (m ∷ rest) acc s.db (r, t)
      after acc' s' (err x) t d a =
          Adds-trans member reason s.db s'.db t.db (Adds-Done is_range m acc s.db (ok acc') s' d) a
      after acc' s' (ok acc'') t d (a, h, k) =
          let first = Adds-Done is_range m acc s.db (ok acc') s' d in
          let (u, k') = settled-Done is_range m acc acc' s.db s' d in
          (
            Adds-trans member reason s.db s'.db t.db first a,
            (Adds-settled member reason s'.db t.db m a u, h),
            k
                ∙ rw k' (
                    append_assoc acc.skipped _ _
                    ∙ ap (λ ms. acc.skipped ++ ms)
                        (ap
                            (λ d.
                              where_rows (is_paid s.db member) (m ∷ [])
                              ++ where_rows (is_paid d member) rest)
                            first.1
                          ∙ sym (where_rows-append (is_paid s.db member) (m ∷ []) rest))),
          )

      next :
          (r : Result HttpError WaiveResponse) (s' : Session)
          → Done member reason is_range m acc s.db (r, s')
          → ((acc' : WaiveResponse) (t : Session)
              → Waives rest acc' t.db (waive_months member reason is_range n (index + 1) acc' t))
          → Waives
              (m ∷ rest)
              acc
              s.db
              (continue r (waive_months member reason is_range n (index + 1)) s')
      next (err x) s' d loop = Adds-Done is_range m acc s.db (err x) s' d
      next (ok acc') s' d loop =
          let (r, t) = waive_months member reason is_range n (index + 1) acc' s' in
          after acc' s' r t d (loop acc' s')

-- WaivePayment, however it ends, changes nothing but waivers that it adds after the ones there were:
-- for the member, with the reason of the request, for months that no payment covers. When it answers
-- with a response, every month of the range is paid or waived, and the response lists as skipped
-- exactly the paid ones. This is for a path and a request that pass the checks.
pub waive_payment-Waives :
    (trim : String → String) (max_year : ℕ) (path : Option ℤ) (request : WaiveRequest) (s : Session)
    (member : ℕ) (months : Months)
    → parse_id path ≡ some member
    → requested_months trim max_year request ≡ some months
    → Waives member
        (trim request.reason)
        (month_list months.count months.first)
        (no_months member)
        s.db
        (waive_payment trim max_year path (some request) s)
unfolding waive_payment member_exists
waive_payment-Waives trim max_year path request s member months hp hm =
    rw (hp, hm)
      (after_ReadOnly P (on_failure (member_exists member) internal) _ s
        (ReadOnly-on_failure _ internal (ReadOnly-select _))
        (λ e t same. Adds-nothing member reason s.db t.db same)
        (λ exists t _ same. checked exists t same))
  where
    reason : String
    reason = trim request.reason

    P : Result HttpError WaiveResponse × Session → Type 0
    P = Waives member reason (month_list months.count months.first) (no_months member) s.db

    checked :
        (exists : Bool) (t : Session)
        → t.db ≡ s.db
        → P (
            (require exists bad_request >>= λ _.
            waive_months member reason months.is_range months.count months.first (no_months member))
              t)
    checked false t same = Adds-nothing member reason s.db t.db same
    checked true t same =
        subst
          (λ db. Waives member reason (month_list months.count months.first) (no_months member) db (
            waive_months member reason months.is_range months.count months.first (no_months member)
              t))
          same
          (waive_months-Waives member reason months.is_range months.count months.first
            (no_months member) t)
