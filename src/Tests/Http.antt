-- ===== src/Tests/Http.antt =====
-- The server's theorems at concrete requests.
use mathlib.Core.Option.{none-ne-some}
use bytedance_double_entry_l.Prelude.{
  All, ◌≡◌, ◌≤◌, ◌<◌, ◌++◌, refl, sym, ap, subst, ℕ, String, Bool, true, false, Option, none, some,
  some_inj, List, [], ◌∷◌, arith,
}
use bytedance_double_entry_l.Prelude.Int.{ℤ, pos, negsuc}
use bytedance_double_entry_l.Prelude.Word.{wrap64, InRange}
use bytedance_double_entry_l.Store.Schema.{AccountRow, Db, TxnRow, SameRows}
use bytedance_double_entry_l.Store.Session.{Session}
use bytedance_double_entry_l.Store.Mode.{row_lock}
use bytedance_double_entry_l.Store.Books.Journal.{Appended}
use bytedance_double_entry_l.Store.Books.Sound.{IsSound}
use bytedance_double_entry_l.Api.Server.{Route, Response}
use bytedance_double_entry_l.Api.Handlers.{
  HttpRequest, Decoders, CreateAccountReq, TransferReq, PaymentReq, RefundReq, FxReq, handle,
}
use bytedance_double_entry_l.Api.Statuses.{client_error_unchanged, posting_status}
use bytedance_double_entry_l.Api.Service.{HasSizedAmounts, serve, serve-Appended, serve-IsSound}
use bytedance_double_entry_l.Tests.Fixtures.{tag, demo_db, demo, demo_db-IsSound}

-- a body that no request type accepts, and two that ask for a transfer
data Body : Type 0 where
  garbage transfer_of small_transfer : Body

abbrev sent : TransferReq
sent = record { from = pos 2; to = pos 1; amount = pos 100; currency = "USD" }

abbrev small_sent : TransferReq
small_sent = record { from = pos 2; to = pos 1; amount = pos 20; currency = "USD" }

abbrev sent_in : Body → Option TransferReq
sent_in garbage = none
sent_in transfer_of = some sent
sent_in small_transfer = some small_sent

abbrev decoders : Decoders Body
decoders = record {
  create_account_req = λ b. none;
  transfer_req = sent_in;
  payment_req = λ b. none;
  refund_req = λ b. none;
  fx_req = λ b. none;
}

sent_in-InRange : (b : Body) (req : TransferReq) → sent_in b ≡ some req → InRange req.amount
sent_in-InRange garbage req h = absurd (none-ne-some _ h)
sent_in-InRange transfer_of req h =
    subst (λ (r : TransferReq). InRange r.amount) (some_inj h) (omega arith, omega arith)
sent_in-InRange small_transfer req h =
    subst (λ (r : TransferReq). InRange r.amount) (some_inj h) (omega arith, omega arith)

decoders-HasSizedAmounts : HasSizedAmounts decoders
decoders-HasSizedAmounts = record {
  transfer_amount = sent_in-InRange;
  payment_amount = λ b req h. absurd (none-ne-some _ h);
  refund_amount = λ b req h. absurd (none-ne-some _ h);
  fx_amount = λ b req h. absurd (none-ne-some _ h);
}

abbrev request : Body → HttpRequest Body
request b = record { idem_key = ""; path_id = []; limit = []; body = b }

-- the shop holds 70, and 100 are sent
refused_status :
    (handle tag decoders row_lock Route.transfer (request transfer_of) demo).0.status ≡ 400
unfolding bytedance_double_entry_l.Prelude.Word.word bytedance_double_entry_l.Prelude.Word.signed
    bytedance_double_entry_l.Prelude.Word.wrap64 bytedance_double_entry_l.Prelude.Word.add64
    bytedance_double_entry_l.Prelude.Word.neg64 bytedance_double_entry_l.Prelude.Word.mul64
    bytedance_double_entry_l.Prelude.Int.◌+ℤ◌ bytedance_double_entry_l.Prelude.Int.◌-ℤ◌
    bytedance_double_entry_l.Prelude.Int.◌*ℤ◌ bytedance_double_entry_l.Prelude.Int.neg
    bytedance_double_entry_l.Money.Currency.find_decimals
    bytedance_double_entry_l.Money.Currency.is_supported
    bytedance_double_entry_l.Money.Currency.decimals
    bytedance_double_entry_l.Money.Currency.scale_loop bytedance_double_entry_l.Money.Currency.scale
    bytedance_double_entry_l.Ledger.Entry.sum_legs bytedance_double_entry_l.Ledger.Entry.all_zero
    bytedance_double_entry_l.Ledger.Entry.validate bytedance_double_entry_l.Store.Schema.rollback
    bytedance_double_entry_l.Store.Session.next_fault bytedance_double_entry_l.Store.Session.query
    bytedance_double_entry_l.Store.Session.exec bytedance_double_entry_l.Store.Session.auto_exec
    bytedance_double_entry_l.Store.Session.◌>>=◌ bytedance_double_entry_l.Store.Session.◌>>◌
    bytedance_double_entry_l.Store.Session.is_retryable
    bytedance_double_entry_l.Store.Session.pg_fault
    bytedance_double_entry_l.Store.Session.retry_or_return
    bytedance_double_entry_l.Store.Session.commit bytedance_double_entry_l.Store.Session.attempt
    bytedance_double_entry_l.Store.Session.attempts bytedance_double_entry_l.Store.Session.run_in_tx
    bytedance_double_entry_l.Store.Accounts.insert_account
    bytedance_double_entry_l.Store.Accounts.create_account
    bytedance_double_entry_l.Store.Accounts.insert_if_absent
    bytedance_double_entry_l.Store.Accounts.scan_account
    bytedance_double_entry_l.Store.Accounts.get_account
    bytedance_double_entry_l.Store.Accounts.get_account_by_name
    bytedance_double_entry_l.Store.Accounts.ensure_account
    bytedance_double_entry_l.Store.Accounts.join_lines
    bytedance_double_entry_l.Store.Accounts.ledger_limit
    bytedance_double_entry_l.Store.Accounts.account_lines
    bytedance_double_entry_l.Store.Accounts.account_ledger
    bytedance_double_entry_l.Store.Posting.distinct_ids
    bytedance_double_entry_l.Store.Posting.distinct_sorted_account_ids
    bytedance_double_entry_l.Store.Posting.locked_rows
    bytedance_double_entry_l.Store.Posting.lock_accounts
    bytedance_double_entry_l.Store.Posting.leg_deltas
    bytedance_double_entry_l.Store.Posting.new_balances
    bytedance_double_entry_l.Store.Posting.insert_txn
    bytedance_double_entry_l.Store.Posting.insert_posting
    bytedance_double_entry_l.Store.Posting.insert_postings
    bytedance_double_entry_l.Store.Posting.update_balance
    bytedance_double_entry_l.Store.Posting.update_balances
    bytedance_double_entry_l.Store.Posting.write_entry
    bytedance_double_entry_l.Store.Posting.post_locked
    bytedance_double_entry_l.Store.Posting.post_entry_tx
    bytedance_double_entry_l.Store.Posting.post_entry_guarded
    bytedance_double_entry_l.Store.Posting.post_entry
    bytedance_double_entry_l.Store.Payments.payment_kind
    bytedance_double_entry_l.Store.Payments.scan_leg
    bytedance_double_entry_l.Store.Payments.scan_legs
    bytedance_double_entry_l.Store.Payments.checked_legs
    bytedance_double_entry_l.Store.Payments.payment_rows
    bytedance_double_entry_l.Store.Payments.get_payment_legs
    bytedance_double_entry_l.Store.Payments.scan_int64
    bytedance_double_entry_l.Store.Payments.refunded
    bytedance_double_entry_l.Store.Payments.refunded_so_far
    bytedance_double_entry_l.Store.Idempotency.set_field
    bytedance_double_entry_l.Store.Idempotency.bind_txn_id
    bytedance_double_entry_l.Store.Idempotency.claim_key
    bytedance_double_entry_l.Store.Idempotency.finalize_key
    bytedance_double_entry_l.Store.Idempotency.read_replay
    bytedance_double_entry_l.Store.Idempotency.post_owned
    bytedance_double_entry_l.Store.Idempotency.idempotent_tx
    bytedance_double_entry_l.Store.Idempotency.post_entry_idempotent_guarded
    bytedance_double_entry_l.Store.Idempotency.post_entry_idempotent
    bytedance_double_entry_l.Ops.transfer_entry bytedance_double_entry_l.Ops.payment_entry
    bytedance_double_entry_l.Ops.refund_entry bytedance_double_entry_l.Ops.refund_guard
    bytedance_double_entry_l.Ops.post_idem bytedance_double_entry_l.Ops.transfer
    bytedance_double_entry_l.Ops.payment bytedance_double_entry_l.Ops.post_refund
    bytedance_double_entry_l.Ops.refund bytedance_double_entry_l.Api.Server.fail_status
    bytedance_double_entry_l.Api.Server.failure bytedance_double_entry_l.Api.Server.success
    bytedance_double_entry_l.Api.Server.decode bytedance_double_entry_l.Api.Server.respond
    bytedance_double_entry_l.Api.Handlers.status_for bytedance_double_entry_l.Api.Handlers.write_op
    bytedance_double_entry_l.Api.Handlers.handle_transfer
    bytedance_double_entry_l.Api.Handlers.handle
refused_status = refl

-- and 20 are sent
accepted_status :
    (handle tag decoders row_lock Route.transfer (request small_transfer) demo).0.status ≡ 201
unfolding bytedance_double_entry_l.Prelude.Word.word bytedance_double_entry_l.Prelude.Word.signed
    bytedance_double_entry_l.Prelude.Word.wrap64 bytedance_double_entry_l.Prelude.Word.add64
    bytedance_double_entry_l.Prelude.Word.neg64 bytedance_double_entry_l.Prelude.Word.mul64
    bytedance_double_entry_l.Prelude.Int.◌+ℤ◌ bytedance_double_entry_l.Prelude.Int.◌-ℤ◌
    bytedance_double_entry_l.Prelude.Int.◌*ℤ◌ bytedance_double_entry_l.Prelude.Int.neg
    bytedance_double_entry_l.Money.Currency.find_decimals
    bytedance_double_entry_l.Money.Currency.is_supported
    bytedance_double_entry_l.Money.Currency.decimals
    bytedance_double_entry_l.Money.Currency.scale_loop bytedance_double_entry_l.Money.Currency.scale
    bytedance_double_entry_l.Ledger.Entry.sum_legs bytedance_double_entry_l.Ledger.Entry.all_zero
    bytedance_double_entry_l.Ledger.Entry.validate bytedance_double_entry_l.Store.Schema.rollback
    bytedance_double_entry_l.Store.Session.next_fault bytedance_double_entry_l.Store.Session.query
    bytedance_double_entry_l.Store.Session.exec bytedance_double_entry_l.Store.Session.auto_exec
    bytedance_double_entry_l.Store.Session.◌>>=◌ bytedance_double_entry_l.Store.Session.◌>>◌
    bytedance_double_entry_l.Store.Session.is_retryable
    bytedance_double_entry_l.Store.Session.pg_fault
    bytedance_double_entry_l.Store.Session.retry_or_return
    bytedance_double_entry_l.Store.Session.commit bytedance_double_entry_l.Store.Session.attempt
    bytedance_double_entry_l.Store.Session.attempts bytedance_double_entry_l.Store.Session.run_in_tx
    bytedance_double_entry_l.Store.Accounts.insert_account
    bytedance_double_entry_l.Store.Accounts.create_account
    bytedance_double_entry_l.Store.Accounts.insert_if_absent
    bytedance_double_entry_l.Store.Accounts.scan_account
    bytedance_double_entry_l.Store.Accounts.get_account
    bytedance_double_entry_l.Store.Accounts.get_account_by_name
    bytedance_double_entry_l.Store.Accounts.ensure_account
    bytedance_double_entry_l.Store.Accounts.join_lines
    bytedance_double_entry_l.Store.Accounts.ledger_limit
    bytedance_double_entry_l.Store.Accounts.account_lines
    bytedance_double_entry_l.Store.Accounts.account_ledger
    bytedance_double_entry_l.Store.Posting.distinct_ids
    bytedance_double_entry_l.Store.Posting.distinct_sorted_account_ids
    bytedance_double_entry_l.Store.Posting.locked_rows
    bytedance_double_entry_l.Store.Posting.lock_accounts
    bytedance_double_entry_l.Store.Posting.leg_deltas
    bytedance_double_entry_l.Store.Posting.new_balances
    bytedance_double_entry_l.Store.Posting.insert_txn
    bytedance_double_entry_l.Store.Posting.insert_posting
    bytedance_double_entry_l.Store.Posting.insert_postings
    bytedance_double_entry_l.Store.Posting.update_balance
    bytedance_double_entry_l.Store.Posting.update_balances
    bytedance_double_entry_l.Store.Posting.write_entry
    bytedance_double_entry_l.Store.Posting.post_locked
    bytedance_double_entry_l.Store.Posting.post_entry_tx
    bytedance_double_entry_l.Store.Posting.post_entry_guarded
    bytedance_double_entry_l.Store.Posting.post_entry
    bytedance_double_entry_l.Store.Payments.payment_kind
    bytedance_double_entry_l.Store.Payments.scan_leg
    bytedance_double_entry_l.Store.Payments.scan_legs
    bytedance_double_entry_l.Store.Payments.checked_legs
    bytedance_double_entry_l.Store.Payments.payment_rows
    bytedance_double_entry_l.Store.Payments.get_payment_legs
    bytedance_double_entry_l.Store.Payments.scan_int64
    bytedance_double_entry_l.Store.Payments.refunded
    bytedance_double_entry_l.Store.Payments.refunded_so_far
    bytedance_double_entry_l.Store.Idempotency.set_field
    bytedance_double_entry_l.Store.Idempotency.bind_txn_id
    bytedance_double_entry_l.Store.Idempotency.claim_key
    bytedance_double_entry_l.Store.Idempotency.finalize_key
    bytedance_double_entry_l.Store.Idempotency.read_replay
    bytedance_double_entry_l.Store.Idempotency.post_owned
    bytedance_double_entry_l.Store.Idempotency.idempotent_tx
    bytedance_double_entry_l.Store.Idempotency.post_entry_idempotent_guarded
    bytedance_double_entry_l.Store.Idempotency.post_entry_idempotent
    bytedance_double_entry_l.Ops.transfer_entry bytedance_double_entry_l.Ops.payment_entry
    bytedance_double_entry_l.Ops.refund_entry bytedance_double_entry_l.Ops.refund_guard
    bytedance_double_entry_l.Ops.post_idem bytedance_double_entry_l.Ops.transfer
    bytedance_double_entry_l.Ops.payment bytedance_double_entry_l.Ops.post_refund
    bytedance_double_entry_l.Ops.refund bytedance_double_entry_l.Api.Server.fail_status
    bytedance_double_entry_l.Api.Server.failure bytedance_double_entry_l.Api.Server.success
    bytedance_double_entry_l.Api.Server.decode bytedance_double_entry_l.Api.Server.respond
    bytedance_double_entry_l.Api.Handlers.status_for bytedance_double_entry_l.Api.Handlers.write_op
    bytedance_double_entry_l.Api.Handlers.handle_transfer
    bytedance_double_entry_l.Api.Handlers.handle
accepted_status = refl

client_error_unchanged_example :
    SameRows demo_db (handle tag decoders row_lock Route.transfer (request transfer_of) demo).1.db
client_error_unchanged_example =
    client_error_unchanged tag decoders row_lock (request transfer_of) Route.transfer demo
      (subst (λ n. 400 ≤ n) (sym refused_status) (omega arith))
      (subst (λ n. n < 500) (sym refused_status) (omega arith))

posting_status_example :
    let (response, s') =
      handle tag decoders row_lock Route.transfer (request small_transfer) demo in
    (response.status ≡ 201 → (t : TxnRow) × (s'.db.transactions ≡ demo_db.transactions ++ t ∷ []))
    × (response.status ≡ 200 → SameRows demo_db s'.db)
posting_status_example =
    posting_status tag decoders row_lock (request small_transfer) Route.transfer demo refl

serve-IsSound_example :
    IsSound
      (serve tag decoders row_lock
        ((Route.transfer, request transfer_of)
          ∷ (Route.transfer, request garbage)
          ∷ (Route.settle, request garbage)
          ∷ [])
        demo).db
serve-IsSound_example =
    serve-IsSound tag decoders row_lock decoders-HasSizedAmounts
      ((Route.transfer, request transfer_of)
        ∷ (Route.transfer, request garbage)
        ∷ (Route.settle, request garbage)
        ∷ [])
      demo demo_db-IsSound

serve-Appended_example :
    Appended demo_db
      (serve tag decoders row_lock
        ((Route.transfer, request transfer_of) ∷ (Route.settle, request garbage) ∷ [])
        demo).db
serve-Appended_example =
    serve-Appended tag decoders row_lock decoders-HasSizedAmounts
      ((Route.transfer, request transfer_of) ∷ (Route.settle, request garbage) ∷ []) demo
