-- ===== src/Handler/Http/Steps.antt =====
-- What the checks on a request make of a condition of the database.
use bank_system_public.Base.{Bool, true, false, ◌≡◌, refl, Option, none, some}
use bank_system_public.Store.{Db, require, ◌>>=◌}
use bank_system_public.Store.Leads.{Leads, Leads-raise}
use bank_system_public.Handler.Http.{HttpError, Handler, bad_request, or_bad_request}

module _ {A B : Type 0} (P : Db → Type 0) (Q : B → Db → Type 0) (R : Db → Type 0) where
  -- A part of a request that must be there.
  pub Leads-given_part :
      (o : Option A) (f : A → Handler B)
      → ((db : Db) → P db → R db)
      → ((a : A) → o ≡ some a → Leads P Q R (f a))
      → Leads P Q R (or_bad_request o >>= f)
  Leads-given_part none f errs h = Leads-raise P Q R bad_request errs
  Leads-given_part (some a) f errs h = h a refl

module _ {B : Type 0} (P : Db → Type 0) (Q : B → Db → Type 0) (R : Db → Type 0) where
  -- A condition on a request.
  pub Leads-when :
      (b : Bool) (e : HttpError) (f : Unit {0} → Handler B)
      → ((db : Db) → P db → R db)
      → (b ≡ true → Leads P Q R (f tt))
      → Leads P Q R (require b e >>= f)
  Leads-when true e f errs h = h refl
  Leads-when false e f errs h = Leads-raise P Q R e errs
