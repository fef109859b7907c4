-- ===== src/Sync/Cursor.antt =====
-- syncAccount and the cursor of Fio: whether a transaction of the bank can be passed over.
use bank_system_public.Base.{
  ℕ, ◌≤◌, ◌<◌, String, ◌≡◌, ◌⊎◌, refl, ◌∙◌, sym, ap, Bool, true, false, some, List, [], ◌∷◌, arith,
  ◌==◌, ==_iff, All, any_row, any_row-append, inl, inr, Bool-cases, ◌||◌,
}
use mathlib.Core.Path.{subst}
use bank_system_public.Store.{
  Db, RawTransaction, Session, ok, err, is_stored, same_transaction, max_fio_id,
}
use bank_system_public.Sync.{
  FioTransaction, FioResponse, Fetched, response, strong_auth_required, fetch_failed, FioClient,
  not_created, not_inserted, fetch, retry, after_seed, sync_account, Synced,
}
use bank_system_public.Sync.Runs.{Holds, tables, sent, SyncEnds, sync_account-SyncEnds}

abbrev pub has : List ℕ → ℕ → Bool
has ledger id = any_row (λ x. x == id) ledger

-- What Fio documents: a fetch sends everything after the cursor up to where it leaves the cursor, and
-- set-last-id moves the cursor to the id. `cursor` is the id of the last transaction downloaded.
pub record IsDocumented {Bank Amount : Type 0} (client : FioClient Bank Amount) (cursor : Bank → ℕ)
    (ledger : List ℕ) : Type 0 where
  pub sends :
      (b : Bank) (r : FioResponse Amount) (txs : List (FioTransaction Amount)) (id : ℕ)
      → (client.fetch_new b).0 ≡ response r
      → r.transactions ≡ some txs
      → has ledger id ≡ true
      → cursor b < id
      → id ≤ cursor (client.fetch_new b).1
      → any_row (λ t. t.fio_transaction_id == id) txs ≡ true
  pub goes_back :
      (id : ℕ) (b : Bank)
      → (client.rewind_to id b).0 ≡ false
      → cursor (client.rewind_to id b).1 ≡ id

every_sent_one :
    {Amount : Type 0} (account id : ℕ) (raw : List RawTransaction)
    (txs : List (FioTransaction Amount))
    → All (λ t. is_stored account t.fio_transaction_id raw ≡ true) txs
    → any_row (λ t. t.fio_transaction_id == id) txs ≡ true
    → is_stored account id raw ≡ true
every_sent_one account id raw [] h e = ground arith
every_sent_one account id raw (t ∷ txs) h e = elim (Bool-cases (t.fio_transaction_id == id)) [
  | inl same ↦
      subst (λ n. is_stored account n raw ≡ true) ((==_iff t.fio_transaction_id id).0 same) h.0
  | inr other ↦
      every_sent_one account id raw txs h.1
        (ap (λ b. b || any_row (λ x. x.fio_transaction_id == id) txs) (sym other) ∙ e)
]

module _ {Bank Amount : Type 0} (client : FioClient Bank Amount) (cursor : Bank → ℕ)
    (ledger : List ℕ) (account : ℕ) where
  -- Every transaction of the bank up to the cursor is stored.
  abbrev pub NothingLost : Db → Bank → Type 0
  NothingLost db b =
      (id : ℕ) → has ledger id ≡ true → id ≤ cursor b → is_stored account id db.raw ≡ true

  -- Every transaction of the bank up to the largest stored id is stored.
  abbrev pub IsGapless : Db → Type 0
  IsGapless db =
      (id : ℕ)
      → has ledger id ≡ true
      → id ≤ max_fio_id account db.raw
      → is_stored account id db.raw ≡ true

  -- Where the bank is when it is asked for the transactions: after the cursor has been set to a date
  -- 89 days back, if the bank had asked for strong authorization.
  abbrev pub asked_of : Bank → Fetched Amount × Bank → Bank
  asked_of b (strong_auth_required, b') = (client.set_last_date 89 b').1
  asked_of b (fetch_failed, b') = b
  asked_of b (response r, b') = b

  abbrev pub asked_at : Bank → Bank
  asked_at b = asked_of b (client.fetch_new b)

  -- Every transaction of the bank up to the cursor is stored, but for those that the date 89 days back
  -- has skipped: after the old cursor, and not after the cursor that the date has set.
  abbrev pub SkipsOnlyOld : Bank → Db → Bank → Type 0
  SkipsOnlyOld b db b' =
      (id : ℕ)
      → has ledger id ≡ true
      → id ≤ cursor b'
      → (id ≤ cursor b) ⊎ (cursor (asked_at b) < id)
      → is_stored account id db.raw ≡ true

  fetch_asked :
      (format_amount : Amount → String) (b : Bank) (txs : List (FioTransaction Amount))
      → sent format_amount client account (fetch client b).0 ≡ some txs
      → fetch client b ≡ client.fetch_new (asked_at b)
  unfolding fetch
  fetch_asked format_amount b txs = go (client.fetch_new b) refl
    where
      seeded :
          (p : Bool × Bank)
          → sent format_amount client account (after_seed client p).0 ≡ some txs
          → after_seed client p ≡ client.fetch_new p.1
      seeded (true, b') h = ground arith
      seeded (false, b') h = refl

      go :
          (p : Fetched Amount × Bank)
          → p ≡ client.fetch_new b
          → sent format_amount client account (retry client p).0 ≡ some txs
          → retry client p ≡ client.fetch_new (asked_of b p)
      go (response r, b') e h = e
      go (fetch_failed, b') e h = ground arith
      go (strong_auth_required, b') e h = seeded (client.set_last_date 89 b') h

  module _ (format_amount : Amount → String) where
    abbrev pub Lossless : Bank → Synced format_amount Bank → Type 0
    Lossless b (ok r, s', b') = SkipsOnlyOld b s'.db b'
    Lossless b (err (not_created x), s', b') = NothingLost s'.db b'
    Lossless b (err (not_inserted x), s', b') = NothingLost s'.db b'
    Lossless b (err _, s', b') = Unit

  module _ (format_amount : Amount → String) (doc : IsDocumented client cursor ledger) where
    fetched_stored :
        (b : Bank) (db db' : Db) (n : ℕ) (f : Fetched Amount) (txs : List (FioTransaction Amount))
        (id : ℕ)
        → (client.fetch_new b).0 ≡ f
        → sent format_amount client account f ≡ some txs
        → Holds format_amount client account txs n (tables db) (tables db')
        → has ledger id ≡ true
        → cursor b < id
        → id ≤ cursor (client.fetch_new b).1
        → is_stored account id db'.raw ≡ true
    fetched_stored b db db' n (response r) txs id e h (new, g, l, all, k) i lo hi =
        every_sent_one account id db'.raw txs all (doc.sends b r txs id e h i lo hi)
    fetched_stored b db db' n strong_auth_required txs id e h holds i lo hi = ground arith
    fetched_stored b db db' n fetch_failed txs id e h holds i lo hi = ground arith

    stored_before :
        (db db' : Db) (txs : List (FioTransaction Amount)) (n id : ℕ)
        → Holds format_amount client account txs n (tables db) (tables db')
        → is_stored account id db.raw ≡ true
        → is_stored account id db'.raw ≡ true
    stored_before db db' txs n id (new, g, _, _, _) h =
        ap (is_stored account id) g
        ∙ any_row-append (same_transaction account id) db.raw new
        ∙ rw h refl

    Lossless-SyncEnds :
        ((id : ℕ) (b : Bank) → (client.rewind_to id b).0 ≡ false)
        → (b : Bank) (db : Db) (r : Synced format_amount Bank) → NothingLost db b
        → IsGapless db
        → SyncEnds format_amount client account b db r
        → Lossless format_amount b r
    Lossless-SyncEnds through b db (ok r, s', b') h g (txs, f, holds, _, move) = λ id i le either.
        elim either [
          | inl old ↦ stored_before db s'.db txs r.transactions_inserted id holds (h id i old)
          | inr new ↦
              fetched_stored (asked_at b) db s'.db r.transactions_inserted
                (client.fetch_new (asked_at b)).0 txs id refl
                (sym (ap (λ p. sent format_amount client account p.0) asked) ∙ f) holds i new
                (subst (λ n. id ≤ n) (ap cursor move ∙ ap (λ p. cursor p.1) asked) le)
        ]
      where
        asked : fetch client b ≡ client.fetch_new (asked_at b)
        asked = fetch_asked format_amount b txs f
    Lossless-SyncEnds through b db (err (not_created x), s', b') h g (t, move) = λ id i le.
        ap (λ u. is_stored account id u.0) t ∙ h id i (subst (λ n. id ≤ n) (ap cursor move) le)
    Lossless-SyncEnds through b db (err (not_inserted x), s', b') h g (t, move) = λ id i le.
        ap (λ u. is_stored account id u.0) t
        ∙ g id i (
            subst (λ n. id ≤ n)
              (ap cursor move
                ∙ doc.goes_back (max_fio_id account db.raw) (fetch client b).1
                    (through (max_fio_id account db.raw) (fetch client b).1))
              le)
    Lossless-SyncEnds through b db (err _, s', b') h g e = tt

    pub sync_account-Lossless :
        (s : Session) (b : Bank)
        → NothingLost s.db b
        → IsGapless s.db
        → ((id : ℕ) (b : Bank) → (client.rewind_to id b).0 ≡ false)
        → Lossless format_amount b (sync_account format_amount client account s b)
    sync_account-Lossless s b h g through =
        Lossless-SyncEnds through b s.db _ h g
          (sync_account-SyncEnds format_amount client account s b)
