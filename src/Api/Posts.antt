-- ===== src/Api/Posts.antt =====
-- internal/api: which rows a response's status speaks of, for the postings.
use bytedance_double_entry_l.Prelude.{
  ℕ, ◌≡◌, refl, sym, ap, subst, ◌∙◌, String, str_eq, ◌==◌, Bool, Bool-cases, true, false, ◌⊎◌, inl,
  inr, Option, none, [], ◌∷◌, ◌++◌,
}
use bytedance_double_entry_l.Prelude.Int.{pos, leb_ℤ}
use bytedance_double_entry_l.Errors.{Result, ok, ok_inj, err-ne-ok}
use bytedance_double_entry_l.Money.Currency.{Currency, Minor}
use bytedance_double_entry_l.Money.Rate.{Rate, convert}
use bytedance_double_entry_l.Ledger.Entry.{Entry}
use bytedance_double_entry_l.Store.Schema.{
  Db, Json, AccountRow, TxnRow, SameRows, SameRows-trans, same_db,
}
use bytedance_double_entry_l.Store.Session.{Session, Tx, pure, lift, ◌>>=◌}
use bytedance_double_entry_l.Store.Session.Inversion.{>>=-ok, fst_eq, snd_eq}
use bytedance_double_entry_l.Store.Session.Atomic.{run_in_tx-ok}
use bytedance_double_entry_l.Store.Posting.{
  PostResult, Guard, txn_row, post_entry_tx, post_entry_guarded, post_entry,
}
use bytedance_double_entry_l.Store.Posting.Commit.{post_entry_tx-Posted}
use bytedance_double_entry_l.Store.Accounts.{get_account, get_account_by_name}
use bytedance_double_entry_l.Store.Payments.{get_payment_legs}
use bytedance_double_entry_l.Store.Idempotency.{
  IdemResult, idempotent_tx, post_entry_idempotent, post_entry_idempotent_guarded,
}
use bytedance_double_entry_l.Store.Idempotency.Keys.{read_replay-replayed}
use bytedance_double_entry_l.Store.Idempotency.Once.{idempotent_tx-ok}
use bytedance_double_entry_l.Ops.{
  Request, OpResult, transfer_entry, payment_entry, post_idem, transfer, payment, post_refund,
  refund,
}
use bytedance_double_entry_l.Ops.Exchange.{
  fx_account_name, FxResult, exchange, exchange_at, convert_fx,
}
use bytedance_double_entry_l.Api.Outcome.{IsPosting, fail-IsPosting, lift-IsReading, >>=-IsPosting}
use bytedance_double_entry_l.Api.Clean.{
  get_account-IsReading, get_account_by_name-IsReading, get_payment_legs-IsReading,
}

abbrev never_replayed : PostResult → Bool
never_replayed r = false

post_entry-IsPosting : (e : Entry) → IsPosting never_replayed (post_entry e)
unfolding post_entry post_entry_guarded
post_entry-IsPosting e s r s' h =
    let (s₁, s₂, same, run, is) = run_in_tx-ok (post_entry_tx e none) s h in
    let p = post_entry_tx-Posted e none s₁ run in
    inr (
      refl,
      txn_row s₁.db.txn_seq e,
      ap Db.transactions is
          ∙ ap Db.transactions p.written
          ∙ ap (λ ts. ts ++ txn_row s₁.db.txn_seq e ∷ []) same.transactions,
    )

module _ (key hash : String) (e : Entry) (response : Json) (guard : Option Guard) where
  pub guarded-IsPosting :
      IsPosting IdemResult.replayed (post_entry_idempotent_guarded key hash e response guard)
  unfolding post_entry_idempotent_guarded
  guarded-IsPosting s r s' h = elim (Bool-cases (str_eq key "")) [
    | inl unnamed ↦ absurd (err-ne-ok (fst_eq (rw unnamed at h)))
    | inr named ↦ ended (run_in_tx-ok (idempotent_tx key hash e response guard) s (rw named at h))
  ]
    where
      ended :
          (s₁ : Session) × (s₂ : Session) × SameRows s.db s₁.db
            × (idempotent_tx key hash e response guard s₁ ≡ (ok r, s₂))
            × (s'.db ≡ s₂.db)
          → ((r.replayed ≡ true) × SameRows s.db s'.db)
            ⊎ ((r.replayed ≡ false)
                × (t : TxnRow) × (s'.db.transactions ≡ s.db.transactions ++ t ∷ []))
      ended (s₁, s₂, same, run, is) = elim (idempotent_tx-ok key hash e response guard s₁ run) [
        | inl o ↦ inr (
          ap IdemResult.replayed o.result,
          txn_row s₁.db.txn_seq e,
          ap Db.transactions is
              ∙ ap Db.transactions o.written
              ∙ ap Db.transactions o.posting.written
              ∙ ap (λ ts. ts ++ txn_row s₁.db.txn_seq e ∷ []) same.transactions,
        )
        | inr (found, kept) ↦
            inl
              (read_replay-replayed key hash s₁.db found, SameRows-trans same (same_db (is ∙ kept)))
      ]

idempotent-IsPosting :
    (key hash : String) (e : Entry) (response : Json)
    → IsPosting IdemResult.replayed (post_entry_idempotent key hash e response)
unfolding post_entry_idempotent
idempotent-IsPosting key hash e response = guarded-IsPosting key hash e response none

module _ {ℓ κ} {A : Type ℓ} {B : Type κ} (before : A → Bool) (after : B → Bool) (m : Tx A)
    (g : A → B) where
  -- the result of a posting in another form, with the same mark
  renamed-IsPosting :
      (f : A → Tx B)
      → ((a : A) → f a ≡ pure (g a))
      → ((a : A) → after (g a) ≡ before a)
      → IsPosting before m
      → IsPosting after (m >>= f)
  renamed-IsPosting f total mark posting s b s' h =
      let (a, s₁, run, rest) = >>=-ok m f s h in
      let last : ◌≡◌ {A = Result B × Session} (ok (g a), s₁) (ok b, s') =
        sym (ap (λ (n : Tx B). n s₁) (total a)) ∙ rest in
      let is : before a ≡ after b = sym (mark a) ∙ ap after (ok_inj (fst_eq last)) in
      subst
        (λ (t : Session).
          ((after b ≡ true) × SameRows s.db t.db)
          ⊎ ((after b ≡ false)
              × (row : TxnRow) × (t.db.transactions ≡ s.db.transactions ++ row ∷ [])))
        (snd_eq last)
        (elim (posting s a s₁ run) [
          | inl (again, same) ↦ inl (sym is ∙ again, same)
          | inr (new, row, added) ↦ inr (sym is ∙ new, row, added)
        ])

module _ (hash_request : Request → String) (key : String) where
  post_idem-IsPosting :
      (e : Entry) (req : Request) → IsPosting OpResult.replayed (post_idem hash_request key e req)
  unfolding post_idem
  post_idem-IsPosting e req = elim (Bool-cases (str_eq key "")) [
    | inl unkeyed ↦ rw unkeyed (
        renamed-IsPosting never_replayed OpResult.replayed (post_entry e) _ _ (λ r. refl)
          (λ r. refl) (post_entry-IsPosting e))
    | inr keyed ↦ rw keyed (
        renamed-IsPosting IdemResult.replayed OpResult.replayed
          (post_entry_idempotent key (hash_request req) e _) _ _ (λ r. refl) (λ r. refl)
          (idempotent-IsPosting key (hash_request req) e _))
  ]

  pub transfer-IsPosting :
      (from to : ℕ) (amount : Minor) (cur : Currency)
      → IsPosting OpResult.replayed (transfer hash_request key from to amount cur)
  unfolding transfer
  transfer-IsPosting from to amount cur = elim (Bool-cases (leb_ℤ amount (pos 0))) [
    | inl refused ↦ rw refused (fail-IsPosting OpResult.replayed _)
    | inr positive ↦ elim (Bool-cases (from == to)) [
      | inl same ↦ rw (positive, same) (fail-IsPosting OpResult.replayed _)
      | inr differ ↦
          rw (positive, differ) (post_idem-IsPosting (transfer_entry from to amount cur) _)
    ]
  ]

  pub payment-IsPosting :
      (source merchant : ℕ) (amount : Minor) (cur : Currency)
      → IsPosting OpResult.replayed (payment hash_request key source merchant amount cur)
  unfolding payment
  payment-IsPosting source merchant amount cur = elim (Bool-cases (leb_ℤ amount (pos 0))) [
    | inl refused ↦ rw refused (fail-IsPosting OpResult.replayed _)
    | inr positive ↦ rw positive (post_idem-IsPosting (payment_entry source merchant amount cur) _)
  ]

  pub refund-IsPosting :
      (i : ℕ) (amount : Minor) → IsPosting OpResult.replayed (refund hash_request key i amount)
  unfolding refund post_refund
  refund-IsPosting i amount = elim (Bool-cases (leb_ℤ amount (pos 0))) [
    | inl refused ↦ rw refused (fail-IsPosting OpResult.replayed _)
    | inr positive ↦ rw positive (
        >>=-IsPosting (get_payment_legs i) (post_refund hash_request key i amount) OpResult.replayed
          (get_payment_legs-IsReading i)
          (λ legs.
            renamed-IsPosting IdemResult.replayed OpResult.replayed
              (post_entry_idempotent_guarded key _ _ _ _) _ _ (λ r. refl) (λ r. refl)
              (guarded-IsPosting key _ _ _ _)))
  ]

  exchange-IsPosting :
      (from to : ℕ) (amount n : Minor) (rate : Rate) (from_acc to_acc : AccountRow)
      → IsPosting FxResult.replayed
          (exchange hash_request key from to amount n rate from_acc to_acc)
  unfolding exchange
  exchange-IsPosting from to amount n rate from_acc to_acc =
      >>=-IsPosting (get_account_by_name (fx_account_name from_acc.currency)) _ FxResult.replayed
        (get_account_by_name-IsReading _)
        (λ fx_from.
          >>=-IsPosting (get_account_by_name (fx_account_name to_acc.currency)) _ FxResult.replayed
            (get_account_by_name-IsReading _)
            (λ fx_to.
              renamed-IsPosting OpResult.replayed FxResult.replayed (post_idem hash_request key _ _)
                _ _ (λ r. refl) (λ r. refl) (post_idem-IsPosting _ _)))

  exchange_at-IsPosting :
      (from to : ℕ) (amount : Minor) (rate : Rate) (from_acc to_acc : AccountRow)
      → IsPosting FxResult.replayed
          (exchange_at hash_request key from to amount rate from_acc to_acc)
  unfolding exchange_at
  exchange_at-IsPosting from to amount rate from_acc to_acc =
      >>=-IsPosting (lift (convert rate amount)) _ FxResult.replayed
        (lift-IsReading (convert rate amount))
        (λ n. elim (Bool-cases (leb_ℤ n (pos 0))) [
          | inl refused ↦ rw refused (fail-IsPosting FxResult.replayed _)
          | inr positive ↦ rw positive (exchange-IsPosting from to amount n rate from_acc to_acc)
        ])

  pub convert_fx-IsPosting :
      (from to : ℕ) (amount : Minor) (rate : Rate)
      → IsPosting FxResult.replayed (convert_fx hash_request key from to amount rate)
  unfolding convert_fx
  convert_fx-IsPosting from to amount rate = elim (Bool-cases (leb_ℤ amount (pos 0))) [
    | inl refused ↦ rw refused (fail-IsPosting FxResult.replayed _)
    | inr positive ↦ rw positive (
        >>=-IsPosting (get_account from) _ FxResult.replayed (get_account-IsReading from)
          (λ from_acc.
            >>=-IsPosting (get_account to) _ FxResult.replayed (get_account-IsReading to) (λ to_acc.
              elim (Bool-cases (str_eq from_acc.currency to_acc.currency)) [
                | inl same ↦ rw same (fail-IsPosting FxResult.replayed _)
                | inr differ ↦ rw differ (exchange_at-IsPosting from to amount rate from_acc to_acc)
              ])))
  ]
