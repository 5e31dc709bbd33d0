-- ===== src/Ops/Moves.antt =====
-- internal/ops/ops.go: what a transfer and a payment move.
use bytedance_double_entry_l.Prelude.{
  arith, ◌||◌, map, All-imp, some, ℕ, ◌≡◌, refl, sym, ap, subst, ◌∙◌, String, Bool, Bool-cases,
  true, false, ◌⊎◌, inl, inr, total, ◌==◌, if◌then◌else◌,
}
use bytedance_double_entry_l.Prelude.Int.{ℤ, pos, neg, ◌+ℤ◌, ◌<ℤ◌, leb_ℤ, +ℤ_zero}
use bytedance_double_entry_l.Prelude.Word.{InRange, add64, wrap64, wrap64-+ℤ_left, neg64_pos}
use bytedance_double_entry_l.Errors.{ok, ok_inj, err-ne-ok}
use bytedance_double_entry_l.Money.Currency.{Currency, Minor}
use bytedance_double_entry_l.Ledger.Entry.{Leg, Entry}
use bytedance_double_entry_l.Store.Schema.{AccountRow, SameRows}
use bytedance_double_entry_l.Store.Session.{Session}
use bytedance_double_entry_l.Store.Session.Inversion.{>>=-ok, fst_eq, snd_eq}
use bytedance_double_entry_l.Store.Posting.Balances.{leg_to}
use bytedance_double_entry_l.Store.Books.{book, IsDerived, IsConsistent}
use bytedance_double_entry_l.Store.Books.Credited.{credited, map_eq}
use bytedance_double_entry_l.Store.Payments.{PaymentLegs, get_payment_legs}
use bytedance_double_entry_l.Store.Idempotency.{post_entry_idempotent_guarded}
use bytedance_double_entry_l.Ops.{
  refund, post_refund, refund_entry, refund_guard, refund_req, empty_response, Request, OpResult,
  transfer_entry, payment_entry, transfer, payment,
}
use bytedance_double_entry_l.Ops.Legs.{positive_amount}
use bytedance_double_entry_l.Ops.Told.{Told, keyed-Told, post_idem-Told, get_payment_legs-db}
use bytedance_double_entry_l.Prelude.{List}

-- the sum of the legs of a move on an account
abbrev pub moved : ℕ → ℕ → Minor → ℕ → ℤ
moved from to amount i =
    (if from == i then neg amount else pos 0) +ℤ (if to == i then amount else pos 0)

-- the row of an account after a move between two accounts: any other account's is as it was
abbrev pub moved_row : ℕ → ℕ → Minor → AccountRow → AccountRow
moved_row from to amount a =
    if (from == a.id) || (to == a.id)
    then record a { balance = add64 a.balance (moved from to amount a.id) }
    else a

module _ (hash_request : Request → String) (key : String) (amount : Minor) (fits : InRange amount)
    (s : Session) (c : IsConsistent s.db) (r : OpResult) (s' : Session) where
  abbrev Outcome : ℕ → ℕ → Type 0
  Outcome from to =
      ((r.replayed ≡ true) × SameRows s.db s'.db)
      ⊎ ((r.replayed ≡ false)
          × (pos 0 <ℤ amount)
          × (s'.db.accounts ≡ map (moved_row from to amount) s.db.accounts)
          × ((i : ℕ) → book s'.db i ≡ book s.db i +ℤ moved from to amount i))

  legs-moved :
      (from to i : ℕ) (cur : Currency)
      → pos 0 <ℤ amount
      → total (leg_to i) (transfer_entry from to amount cur).legs ≡ moved from to amount i
  unfolding transfer_entry
  legs-moved from to i cur positive =
      rw (neg64_pos amount fits positive)
        (ap (λ z. (if from == i then neg amount else pos 0) +ℤ z) (+ℤ_zero _))

  credited-moved :
      (from to : ℕ) (legs : List Leg) (a : AccountRow)
      → total (leg_to a.id) legs ≡ moved from to amount a.id
      → IsDerived s.db.postings a
      → credited legs a ≡ moved_row from to amount a
  unfolding add64
  credited-moved from to legs a sums derived = elim (Bool-cases ((from == a.id) || (to == a.id))) [
    | inl moves ↦ rw moves (ap (λ z. record a { balance = add64 a.balance z }) sums)
    | inr stays ↦ rw stays (
        ap (λ (b : Minor). record a { balance = b })
          (ap (λ z. wrap64 (a.balance +ℤ z)) (sums ∙ nothing (from == a.id) (to == a.id) stays)
            ∙ unchanged))
  ]
    where
      nothing :
          (x y : Bool)
          → (x || y) ≡ false
          → (if x then neg amount else pos 0) +ℤ (if y then amount else pos 0) ≡ pos 0
      nothing x y h = ground arith

      unchanged : wrap64 (a.balance +ℤ pos 0) ≡ a.balance
      unchanged =
          ap (λ b. wrap64 (b +ℤ pos 0)) derived
          ∙ wrap64-+ℤ_left (book s.db a.id) (pos 0)
          ∙ ap wrap64 (+ℤ_zero (book s.db a.id))
          ∙ sym derived

  told :
      (from to : ℕ) (e : Entry) (cur : Currency)
      → e.legs ≡ (transfer_entry from to amount cur).legs
      → pos 0 <ℤ amount
      → Told e r.replayed s.db s'.db
      → Outcome from to
  told from to e cur legs positive (inl replay) = inl replay
  told from to e cur legs positive (inr (new, (rows, moves))) = inr (
    new,
    positive,
    rows
        ∙ map_eq (credited e.legs) (moved_row from to amount) s.db.accounts
            (All-imp (λ a. credited-moved from to e.legs a (sums a.id)) s.db.accounts c.derived),
    λ i. moves i ∙ ap (λ z. book s.db i +ℤ z) (sums i),
  )
    where
      sums : (i : ℕ) → total (leg_to i) e.legs ≡ moved from to amount i
      sums i = ap (λ ls. total (leg_to i) ls) legs ∙ legs-moved from to i cur positive

  -- On consistent rows and for an int64 amount, a transfer that succeeds is between two accounts,
  -- and is a replay that changes no row, or is of a positive amount, which it takes from the
  -- balance of the one and adds to that of the other, as int64. The rows of all other accounts
  -- stay, and so does every other column of these two. The exact sums of the postings of each
  -- account change by the same amounts.
  pub transfer_moves :
      (from to : ℕ) (cur : Currency)
      → transfer hash_request key from to amount cur s ≡ (ok r, s')
      → ((from == to) ≡ false)
        × (((r.replayed ≡ true) × SameRows s.db s'.db)
            ⊎ ((r.replayed ≡ false)
                × (pos 0 <ℤ amount)
                × (s'.db.accounts ≡ map (moved_row from to amount) s.db.accounts)
                × ((i : ℕ) → book s'.db i ≡ book s.db i +ℤ moved from to amount i)))
  unfolding transfer
  transfer_moves from to cur h = elim (Bool-cases (leb_ℤ amount (pos 0))) [
    | inl refused ↦ absurd (err-ne-ok (fst_eq (rw refused at h)))
    | inr positive ↦ elim (Bool-cases (from == to)) [
      | inl same ↦ absurd (err-ne-ok (fst_eq (rw (positive, same) at h)))
      | inr differ ↦ (
        differ,
        told from to (transfer_entry from to amount cur) cur refl (positive_amount amount positive)
            (post_idem-Told (transfer_entry from to amount cur) hash_request key _ s c
              (rw (positive, differ) at h)),
      )
    ]
  ]

  -- On consistent rows and for an int64 amount, a payment that succeeds is a replay that changes
  -- no row, or is of a positive amount, which it takes from the balance of the source and adds to
  -- that of the merchant, as int64. The rows of all other accounts stay, and so does every other
  -- column of these two. The exact sums of the postings of each account change by the same
  -- amounts.
  pub payment_moves :
      (source merchant : ℕ) (cur : Currency)
      → payment hash_request key source merchant amount cur s ≡ (ok r, s')
      → ((r.replayed ≡ true) × SameRows s.db s'.db)
        ⊎ ((r.replayed ≡ false)
            × (pos 0 <ℤ amount)
            × (s'.db.accounts ≡ map (moved_row source merchant amount) s.db.accounts)
            × ((i : ℕ) → book s'.db i ≡ book s.db i +ℤ moved source merchant amount i))
  unfolding payment payment_entry transfer_entry
  payment_moves source merchant cur h = elim (Bool-cases (leb_ℤ amount (pos 0))) [
    | inl refused ↦ absurd (err-ne-ok (fst_eq (rw refused at h)))
    | inr positive ↦
        told source merchant (payment_entry source merchant amount cur) cur refl
          (positive_amount amount positive)
          (post_idem-Told (payment_entry source merchant amount cur) hash_request key _ s c
            (rw positive at h))
  ]

  -- On consistent rows and for an int64 amount, a refund that succeeds has read the legs of a
  -- payment, and is a replay that changes no row, or is of a positive amount, which it takes from
  -- the balance of the payment's merchant and adds to that of its source, as int64. The rows of
  -- all other accounts stay, and so does every other column of these two. The exact sums of the
  -- postings of each account change by the same amounts.
  pub refund_moves :
      (i : ℕ)
      → refund hash_request key i amount s ≡ (ok r, s')
      → (legs : PaymentLegs) × (t : Session) × (get_payment_legs i s ≡ (ok legs, t))
        × (((r.replayed ≡ true) × SameRows s.db s'.db)
            ⊎ ((r.replayed ≡ false)
                × (pos 0 <ℤ amount)
                × (s'.db.accounts
                    ≡ map
                        (moved_row legs.merchant_account_id legs.source_account_id amount)
                        s.db.accounts)
                × ((a : ℕ)
                    → book s'.db a
                      ≡ book s.db a
                        +ℤ moved legs.merchant_account_id legs.source_account_id amount a)))
  unfolding refund post_refund refund_entry transfer_entry
  refund_moves i h = elim (Bool-cases (leb_ℤ amount (pos 0))) [
    | inl refused ↦ absurd (err-ne-ok (fst_eq (rw refused at h)))
    | inr positive ↦
        let (legs, t, read, posting) =
          >>=-ok (get_payment_legs i) (post_refund hash_request key i amount) s
            (rw positive at h) in
        let e = refund_entry i legs amount in
        let (p, t', run, last) =
          >>=-ok
            (post_entry_idempotent_guarded key (hash_request (refund_req "refund" i amount)) e
              empty_response (some (refund_guard i legs amount)))
            _ t posting in
        let unread : t.db ≡ s.db = get_payment_legs-db i s read in
        (
          legs,
          t,
          read,
          told legs.merchant_account_id legs.source_account_id e legs.currency refl
              (positive_amount amount positive)
              (subst (λ d. Told e r.replayed d s'.db) unread
                (subst (λ (u : Session). Told e r.replayed t.db u.db) (snd_eq last)
                  (subst (λ b. Told e b t.db t'.db) (ap OpResult.replayed (ok_inj (fst_eq last)))
                    (keyed-Told e _ key _ _ t (subst IsConsistent (sym unread) c) run)))),
        )
  ]
