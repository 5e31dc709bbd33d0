-- ===== src/Api/Clean.antt =====
-- internal/api: which rows a response's status speaks of, for the errors.
use bytedance_double_entry_l.Prelude.{
  ℕ, ◌≡◌, refl, sym, String, str_eq, ◌==◌, ◌||◌, any_row, Bool, Bool-cases, inl, inr, Option, none,
}
use bytedance_double_entry_l.Prelude.Int.{pos, leb_ℤ}
use bytedance_double_entry_l.Errors.{Error, ok, err, err-ne-ok}
use bytedance_double_entry_l.Money.Currency.{Currency, Minor, is_supported}
use bytedance_double_entry_l.Money.Rate.{Rate, convert}
use bytedance_double_entry_l.Ledger.Entry.{AccountKind, Entry}
use bytedance_double_entry_l.Store.Schema.{Db, AccountRow, SameRows, SameRows-refl}
use bytedance_double_entry_l.Store.Session.{query, fail, lift, ◌>>◌}
use bytedance_double_entry_l.Store.Posting.{post_entry_tx, post_entry_guarded, post_entry, Guard}
use bytedance_double_entry_l.Store.Accounts.{
  insert_account, create_account, get_account, get_account_by_name, account_lines, account_ledger,
  ledger_limit,
}
use bytedance_double_entry_l.Store.Accounts.Books.{bump}
use bytedance_double_entry_l.Store.Payments.{payment_kind, payment_rows, get_payment_legs}
use bytedance_double_entry_l.Store.Idempotency.{
  idempotent_tx, post_entry_idempotent, post_entry_idempotent_guarded,
}
use bytedance_double_entry_l.Store.Settlement.{settlement_tx, run_settlement}
use bytedance_double_entry_l.Store.Queries.{
  unbalanced_txns, stored_balances, recomputed_balances, conservation_by_currency, counts,
}
use bytedance_double_entry_l.Settle.Reconcile.{reconcile}
use bytedance_double_entry_l.Ops.{
  Request, transfer_entry, payment_entry, post_idem, transfer, payment, post_refund, refund,
}
use bytedance_double_entry_l.Ops.Exchange.{fx_account_name, exchange, exchange_at, convert_fx}
use bytedance_double_entry_l.Api.Handlers.{CreateAccountReq, account_kind, open_account}
use bytedance_double_entry_l.Api.Outcome.{
  IsReading, IsClean, IsReading-IsClean, query-IsReading, lift-IsReading, run_in_tx-IsClean,
  auto_exec-IsClean, >>=-IsReading, >>=-IsClean, >>=_pure-IsClean,
}

fail-IsClean {ℓ} : {A : Type ℓ} (e : Error) → IsClean (fail {A = A} e)
fail-IsClean {A} e = IsReading-IsClean (fail {A = A} e) (λ s. SameRows-refl s.db)

pub get_account-IsReading : (i : ℕ) → IsReading (get_account i)
unfolding get_account
get_account-IsReading i = query-IsReading _

pub get_account_by_name-IsReading : (name : String) → IsReading (get_account_by_name name)
unfolding get_account_by_name
get_account_by_name-IsReading name = query-IsReading _

pub get_payment_legs-IsReading : (i : ℕ) → IsReading (get_payment_legs i)
unfolding get_payment_legs ◌>>◌
get_payment_legs-IsReading i = >>=-IsReading (query (payment_kind i)) _ (query-IsReading _) (λ u.
    >>=-IsReading (query (λ db. ok (payment_rows i db))) _ (query-IsReading _)
      (λ rows t. SameRows-refl t.db))

pub account_ledger-IsReading : (i : ℕ) (limit : _) → IsReading (account_ledger i limit)
unfolding account_ledger
account_ledger-IsReading i limit = >>=-IsReading (get_account i) _ (get_account-IsReading i) (λ a.
    >>=-IsReading (query (λ db. ok (account_lines i (ledger_limit limit) db))) _ (query-IsReading _)
      (λ lines t. SameRows-refl t.db))

pub reconcile-IsReading : IsReading reconcile
unfolding reconcile unbalanced_txns stored_balances recomputed_balances conservation_by_currency
    counts
reconcile-IsReading = >>=-IsReading (query _) _ (query-IsReading _) (λ a.
    >>=-IsReading (query _) _ (query-IsReading _) (λ b.
      >>=-IsReading (query _) _ (query-IsReading _) (λ c.
        >>=-IsReading (query _) _ (query-IsReading _)
          (λ d. >>=-IsReading (query _) _ (query-IsReading _) (λ e t. SameRows-refl t.db)))))

pub counts-IsReading : IsReading counts
unfolding counts
counts-IsReading = query-IsReading _

post_entry-IsClean : (e : Entry) → IsClean (post_entry e)
unfolding post_entry post_entry_guarded
post_entry-IsClean e = run_in_tx-IsClean (post_entry_tx e none)

pub post_entry_idempotent_guarded-IsClean :
    (key hash : String) (e : Entry) (response : _) (guard : Option Guard)
    → IsClean (post_entry_idempotent_guarded key hash e response guard)
unfolding post_entry_idempotent_guarded
post_entry_idempotent_guarded-IsClean key hash e response guard =
    elim (Bool-cases (str_eq key "")) [
      | inl unnamed ↦ rw unnamed (fail-IsClean _)
      | inr named ↦ rw named (run_in_tx-IsClean (idempotent_tx key hash e response guard))
    ]

post_entry_idempotent-IsClean :
    (key hash : String) (e : Entry) (response : _)
    → IsClean (post_entry_idempotent key hash e response)
unfolding post_entry_idempotent
post_entry_idempotent-IsClean key hash e response =
    post_entry_idempotent_guarded-IsClean key hash e response none

pub run_settlement-IsClean : IsClean run_settlement
unfolding run_settlement
run_settlement-IsClean = run_in_tx-IsClean settlement_tx

refused_insert :
    (name : String) (cur : Currency) (kind : AccountKind) (allow : Bool) (db : Db) (e : Error)
    → (insert_account name cur kind allow db).0 ≡ err e
    → SameRows db (insert_account name cur kind allow db).1
unfolding insert_account
refused_insert name cur kind allow db e h =
    elim (Bool-cases (any_row (λ (a : AccountRow). str_eq a.name name) db.accounts)) [
      | inl taken ↦ rw taken (bump db)
      | inr free ↦ absurd (err-ne-ok (sym (rw free at h)))
    ]

create_account-IsClean :
    (name : String) (cur : Currency) (kind : AccountKind) (allow : Bool)
    → IsClean (create_account name cur kind allow)
unfolding create_account
create_account-IsClean name cur kind allow = elim (Bool-cases (str_eq name "")) [
  | inl unnamed ↦ rw unnamed (fail-IsClean _)
  | inr named ↦ elim (Bool-cases (is_supported cur)) [
    | inl known ↦
        rw (named, known)
          (auto_exec-IsClean (insert_account name cur kind allow)
            (refused_insert name cur kind allow))
    | inr unknown ↦ rw (named, unknown) (fail-IsClean _)
  ]
]

pub open_account-IsClean : (req : CreateAccountReq) → IsClean (open_account req)
unfolding open_account
open_account-IsClean req = elim (Bool-cases (str_eq req.name "" || str_eq req.currency "")) [
  | inl missing ↦ rw missing (fail-IsClean _)
  | inr given ↦
      rw given
        (create_account-IsClean req.name req.currency (account_kind req.kind) req.allow_negative)
]

module _ (hash_request : Request → String) (key : String) where
  post_idem-IsClean : (e : Entry) (req : Request) → IsClean (post_idem hash_request key e req)
  unfolding post_idem
  post_idem-IsClean e req = elim (Bool-cases (str_eq key "")) [
    | inl unkeyed ↦
        rw unkeyed (>>=_pure-IsClean (post_entry e) _ (post_entry-IsClean e) _ (λ r. refl))
    | inr keyed ↦ rw keyed (
        >>=_pure-IsClean (post_entry_idempotent key (hash_request req) e _) _
          (post_entry_idempotent-IsClean key (hash_request req) e _) _ (λ r. refl))
  ]

  pub transfer-IsClean :
      (from to : ℕ) (amount : Minor) (cur : Currency)
      → IsClean (transfer hash_request key from to amount cur)
  unfolding transfer
  transfer-IsClean from to amount cur = elim (Bool-cases (leb_ℤ amount (pos 0))) [
    | inl refused ↦ rw refused (fail-IsClean _)
    | inr positive ↦ elim (Bool-cases (from == to)) [
      | inl same ↦ rw (positive, same) (fail-IsClean _)
      | inr differ ↦ rw (positive, differ) (post_idem-IsClean (transfer_entry from to amount cur) _)
    ]
  ]

  pub payment-IsClean :
      (source merchant : ℕ) (amount : Minor) (cur : Currency)
      → IsClean (payment hash_request key source merchant amount cur)
  unfolding payment
  payment-IsClean source merchant amount cur = elim (Bool-cases (leb_ℤ amount (pos 0))) [
    | inl refused ↦ rw refused (fail-IsClean _)
    | inr positive ↦ rw positive (post_idem-IsClean (payment_entry source merchant amount cur) _)
  ]

  pub refund-IsClean : (i : ℕ) (amount : Minor) → IsClean (refund hash_request key i amount)
  unfolding refund post_refund
  refund-IsClean i amount = elim (Bool-cases (leb_ℤ amount (pos 0))) [
    | inl refused ↦ rw refused (fail-IsClean _)
    | inr positive ↦ rw positive (
        >>=-IsClean (get_payment_legs i) (post_refund hash_request key i amount)
          (get_payment_legs-IsReading i)
          (λ legs.
            >>=_pure-IsClean (post_entry_idempotent_guarded key _ _ _ _) _
              (post_entry_idempotent_guarded-IsClean key _ _ _ _) _ (λ r. refl)))
  ]

  exchange-IsClean :
      (from to : ℕ) (amount n : Minor) (rate : Rate) (from_acc to_acc : AccountRow)
      → IsClean (exchange hash_request key from to amount n rate from_acc to_acc)
  unfolding exchange
  exchange-IsClean from to amount n rate from_acc to_acc =
      >>=-IsClean (get_account_by_name (fx_account_name from_acc.currency)) _
        (get_account_by_name-IsReading _)
        (λ fx_from.
          >>=-IsClean (get_account_by_name (fx_account_name to_acc.currency)) _
            (get_account_by_name-IsReading _)
            (λ fx_to.
              >>=_pure-IsClean (post_idem hash_request key _ _) _ (post_idem-IsClean _ _) _
                (λ r. refl)))

  exchange_at-IsClean :
      (from to : ℕ) (amount : Minor) (rate : Rate) (from_acc to_acc : AccountRow)
      → IsClean (exchange_at hash_request key from to amount rate from_acc to_acc)
  unfolding exchange_at
  exchange_at-IsClean from to amount rate from_acc to_acc =
      >>=-IsClean (lift (convert rate amount)) _ (lift-IsReading (convert rate amount)) (λ n.
        elim (Bool-cases (leb_ℤ n (pos 0))) [
          | inl refused ↦ rw refused (fail-IsClean _)
          | inr positive ↦ rw positive (exchange-IsClean from to amount n rate from_acc to_acc)
        ])

  pub convert_fx-IsClean :
      (from to : ℕ) (amount : Minor) (rate : Rate)
      → IsClean (convert_fx hash_request key from to amount rate)
  unfolding convert_fx
  convert_fx-IsClean from to amount rate = elim (Bool-cases (leb_ℤ amount (pos 0))) [
    | inl refused ↦ rw refused (fail-IsClean _)
    | inr positive ↦ rw positive (
        >>=-IsClean (get_account from) _ (get_account-IsReading from) (λ from_acc.
          >>=-IsClean (get_account to) _ (get_account-IsReading to) (λ to_acc.
            elim (Bool-cases (str_eq from_acc.currency to_acc.currency)) [
              | inl same ↦ rw same (fail-IsClean _)
              | inr differ ↦ rw differ (exchange_at-IsClean from to amount rate from_acc to_acc)
            ])))
  ]
