-- ===== src/Ops/Books.antt =====
-- internal/ops: the books along the statements of each operation.
use bytedance_double_entry_l.Prelude.{
  ℕ, ◌≡◌, sym, subst, String, Bool-cases, true, false, inl, inr, none, some, List, [], ◌∷◌, ◌==◌,
  str_eq, str_append,
}
use bytedance_double_entry_l.Prelude.Int.{pos, leb_ℤ}
use bytedance_double_entry_l.Prelude.Word.{InRange}
use bytedance_double_entry_l.Errors.{Result, ok}
use bytedance_double_entry_l.Money.Currency.{Currency, Minor}
use bytedance_double_entry_l.Money.Rate.{Rate, convert}
use bytedance_double_entry_l.Ledger.Entry.{Entry, external, fx as fx_account, payout}
use bytedance_double_entry_l.Store.Schema.{AccountRow, Db}
use bytedance_double_entry_l.Store.Session.{Session, query, lift}
use bytedance_double_entry_l.Store.Session.Inversion.{fst_eq}
use bytedance_double_entry_l.Store.Session.Keeps.{db-query, >>=-keeps, >>-keeps}
use bytedance_double_entry_l.Store.Posting.{post_entry}
use bytedance_double_entry_l.Store.Payments.{payment_kind, payment_rows, get_payment_legs}
use bytedance_double_entry_l.Store.Accounts.{get_account, get_account_by_name, ensure_account}
use bytedance_double_entry_l.Store.Idempotency.{post_entry_idempotent}
use bytedance_double_entry_l.Store.Books.Exact.{NetsToZero}
use bytedance_double_entry_l.Store.Books.Kept.{
  IsKept, post_entry_guarded-kept, post_entry_idempotent_guarded-kept, ensure_account-kept,
}
use bytedance_double_entry_l.Ops.{
  Request, empty_response, transfer_entry, payment_entry, refund_entry, refund_guard, transfer_req,
  refund_req, fx_req, post_idem, transfer, payment, post_refund, refund,
}
use bytedance_double_entry_l.Ops.Exchange.{
  fx_account_name, fx_entry, Infra, put, ensure_currency, ensure_all, ensure_infra, exchange,
  exchange_at, convert_fx,
}
use bytedance_double_entry_l.Ops.Legs.{
  positive_amount, transfer_entry-NetsToZero, payment_entry-NetsToZero, refund_entry-NetsToZero,
  fx_entry-NetsToZero, convert-InRange,
}

module _ {κ} {P : Db → Type κ} (is_kept : IsKept P) where
  read-kept {ℓ} : {A : Type ℓ} (f : Db → Result A) (s : Session) → P s.db → P (query f s).1.db
  read-kept f s h = subst P (sym (db-query f s)) h

  get_payment_legs-kept : (i : ℕ) (s : Session) → P s.db → P (get_payment_legs i s).1.db
  unfolding get_payment_legs
  get_payment_legs-kept i s h = >>-keeps P (query (payment_kind i)) _ s (read-kept _ s h) (λ t k.
      >>=-keeps P (query (λ db. ok (payment_rows i db))) _ t (read-kept _ t k) (λ rows u e m. m))

  get_account-kept : (i : ℕ) (s : Session) → P s.db → P (get_account i s).1.db
  unfolding get_account
  get_account-kept i s h = read-kept _ s h

  get_account_by_name-kept :
      (name : String) (s : Session) → P s.db → P (get_account_by_name name s).1.db
  unfolding get_account_by_name
  get_account_by_name-kept name s h = read-kept _ s h

  ensure_currency-kept : (c : Currency) (s : Session) → P s.db → P (ensure_currency c s).1.db
  unfolding ensure_currency
  ensure_currency-kept c s h =
      >>=-keeps P (ensure_account (str_append "world:" c) c external true) _ s
        (ensure_account-kept is_kept _ c external true s h)
        (λ world t _ k.
          >>=-keeps P (ensure_account (fx_account_name c) c fx_account true) _ t
            (ensure_account-kept is_kept _ c fx_account true t k)
            (λ desk u _ m.
              >>=-keeps P (ensure_account (str_append "payout:" c) c payout true) _ u
                (ensure_account-kept is_kept _ c payout true u m) (λ rail v _ n. n)))

  ensure_all-kept :
      (cs : List Currency) (out : List (Currency × Infra)) (s : Session)
      → P s.db
      → P (ensure_all cs out s).1.db
  unfolding ensure_all
  ensure_all-kept [] out s h = h
  ensure_all-kept (c ∷ cs) out s h =
      >>=-keeps P (ensure_currency c) _ s (ensure_currency-kept c s h)
        (λ x t _ k. ensure_all-kept cs (put c x out) t k)

  pub ensure_infra-kept : (cs : List Currency) (s : Session) → P s.db → P (ensure_infra cs s).1.db
  unfolding ensure_infra
  ensure_infra-kept cs s h = ensure_all-kept cs [] s h

  post_entry-kept :
      (e : Entry) → NetsToZero e.legs → (s : Session) → P s.db → P (post_entry e s).1.db
  unfolding post_entry
  post_entry-kept e nets s h = post_entry_guarded-kept is_kept e none nets s h

  post_entry_idempotent-kept :
      (key hash : String) (e : Entry)
      → NetsToZero e.legs
      → (s : Session) → P s.db
      → P (post_entry_idempotent key hash e empty_response s).1.db
  unfolding post_entry_idempotent
  post_entry_idempotent-kept key hash e nets s h =
      post_entry_idempotent_guarded-kept is_kept e none nets key hash empty_response s h

  module _ (hash_request : Request → String) where
    post_idem-kept :
        (key : String) (e : Entry) (req : Request)
        → NetsToZero e.legs
        → (s : Session) → P s.db
        → P (post_idem hash_request key e req s).1.db
    unfolding post_idem
    post_idem-kept key e req nets s h = elim (Bool-cases (str_eq key "")) [
      | inl unkeyed ↦
          rw unkeyed (>>=-keeps P (post_entry e) _ s (post_entry-kept e nets s h) (λ r t _ k. k))
      | inr keyed ↦ rw keyed (
          >>=-keeps P (post_entry_idempotent key (hash_request req) e empty_response) _ s
            (post_entry_idempotent-kept key (hash_request req) e nets s h) (λ r t _ k. k))
    ]

    module _ (key : String) (amount : Minor) (fits : InRange amount) (s : Session)
        (h : P s.db) where
      pub transfer-kept :
          (from to : ℕ) (cur : Currency) → P (transfer hash_request key from to amount cur s).1.db
      unfolding transfer
      transfer-kept from to cur = elim (Bool-cases (leb_ℤ amount (pos 0))) [
        | inl refused ↦ rw refused h
        | inr positive ↦ elim (Bool-cases (from == to)) [
          | inl same ↦ rw (positive, same) h
          | inr differ ↦
              rw (positive, differ)
                (post_idem-kept key (transfer_entry from to amount cur)
                  (transfer_req "transfer" from to amount cur)
                  (transfer_entry-NetsToZero amount fits (positive_amount amount positive) from to
                    cur)
                  s h)
        ]
      ]

      pub payment-kept :
          (source merchant : ℕ) (cur : Currency)
          → P (payment hash_request key source merchant amount cur s).1.db
      unfolding payment
      payment-kept source merchant cur = elim (Bool-cases (leb_ℤ amount (pos 0))) [
        | inl refused ↦ rw refused h
        | inr positive ↦ rw positive (
            post_idem-kept key (payment_entry source merchant amount cur)
              (transfer_req "payment" source merchant amount cur)
              (payment_entry-NetsToZero amount fits (positive_amount amount positive) source
                merchant cur)
              s h)
      ]

      pub refund-kept : (i : ℕ) → P (refund hash_request key i amount s).1.db
      unfolding refund post_refund
      refund-kept i = elim (Bool-cases (leb_ℤ amount (pos 0))) [
        | inl refused ↦ rw refused h
        | inr positive ↦ rw positive (
            >>=-keeps P (get_payment_legs i) (post_refund hash_request key i amount) s
              (get_payment_legs-kept i s h)
              (λ legs t _ k.
                >>=-keeps P _ _ t
                  (post_entry_idempotent_guarded-kept is_kept (refund_entry i legs amount)
                    (some (refund_guard i legs amount))
                    (refund_entry-NetsToZero amount fits (positive_amount amount positive) i legs)
                    key (hash_request (refund_req "refund" i amount)) empty_response t k)
                  (λ r u _ m. m)))
      ]

      exchange-kept :
          (from to : ℕ) (n : Minor) (rate : Rate) (from_acc to_acc : AccountRow)
          → leb_ℤ amount (pos 0) ≡ false
          → InRange n
          → leb_ℤ n (pos 0) ≡ false
          → (t : Session) → P t.db
          → P (exchange hash_request key from to amount n rate from_acc to_acc t).1.db
      unfolding exchange
      exchange-kept from to n rate from_acc to_acc positive n_fits n_positive t k =
          >>=-keeps P (get_account_by_name (fx_account_name from_acc.currency)) _ t
            (get_account_by_name-kept _ t k)
            (λ fx_from u _ l.
              >>=-keeps P (get_account_by_name (fx_account_name to_acc.currency)) _ u
                (get_account_by_name-kept _ u l)
                (λ fx_to v _ m.
                  >>=-keeps P (post_idem hash_request key _ _) _ v
                    (post_idem-kept key
                      (fx_entry from_acc to_acc fx_from fx_to amount n from to rate)
                      (fx_req "fx" from to amount rate.num rate.den)
                      (fx_entry-NetsToZero amount fits (positive_amount amount positive) n n_fits
                        (positive_amount n n_positive) from_acc to_acc fx_from fx_to from to rate)
                      v m)
                    (λ r w _ o. o)))

      exchange_at-kept :
          (from to : ℕ) (rate : Rate) (from_acc to_acc : AccountRow)
          → leb_ℤ amount (pos 0) ≡ false
          → (t : Session) → P t.db
          → P (exchange_at hash_request key from to amount rate from_acc to_acc t).1.db
      unfolding exchange_at
      exchange_at-kept from to rate from_acc to_acc positive t k =
          >>=-keeps P (lift (convert rate amount)) _ t k (λ n u e m.
            elim (Bool-cases (leb_ℤ n (pos 0))) [
              | inl refused ↦ rw refused m
              | inr n_positive ↦ rw n_positive (
                  exchange-kept from to n rate from_acc to_acc positive
                    (convert-InRange rate amount (fst_eq e)) n_positive u m)
            ])

      pub convert_fx-kept :
          (from to : ℕ) (rate : Rate) → P (convert_fx hash_request key from to amount rate s).1.db
      unfolding convert_fx
      convert_fx-kept from to rate = elim (Bool-cases (leb_ℤ amount (pos 0))) [
        | inl refused ↦ rw refused h
        | inr positive ↦ rw positive (
            >>=-keeps P (get_account from) _ s (get_account-kept from s h) (λ from_acc t _ k.
              >>=-keeps P (get_account to) _ t (get_account-kept to t k) (λ to_acc u _ m.
                elim (Bool-cases (str_eq from_acc.currency to_acc.currency)) [
                  | inl same ↦ rw same m
                  | inr differ ↦
                      rw differ (exchange_at-kept from to rate from_acc to_acc positive u m)
                ])))
      ]
