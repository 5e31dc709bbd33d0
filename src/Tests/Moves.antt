-- ===== src/Tests/Moves.antt =====
-- A transfer and a payment on the small ledger.
use bytedance_double_entry_l.Prelude.{
  map, ◌≡◌, refl, ℕ, Bool, true, false, ◌⊎◌, ◌==◌, Option, none, some, List, [], ◌∷◌, arith,
}
use bytedance_double_entry_l.Prelude.Int.{ℤ, pos, negsuc, ◌+ℤ◌, ◌<ℤ◌}
use bytedance_double_entry_l.Errors.{ok}
use bytedance_double_entry_l.Ledger.Entry.{
  external, merchant, payment as payment_kind, refund as refund_kind, transfer as transfer_kind,
}
use bytedance_double_entry_l.Store.Schema.{Db, SameRows}
use bytedance_double_entry_l.Store.Session.{Session}
use bytedance_double_entry_l.Store.Books.{book}
use bytedance_double_entry_l.Store.Payments.{PaymentLegs, get_payment_legs}
use bytedance_double_entry_l.Ops.{refund, OpResult, transfer, payment}
use bytedance_double_entry_l.Ops.Moves.{
  refund_moves, moved, moved_row, transfer_moves, payment_moves,
}
use bytedance_double_entry_l.Tests.Fixtures.{
  demo_db-IsSound, stored_key, tag, demo_db, demo, txn, posting, account,
}

abbrev transferred : Db
transferred = record demo_db {
  accounts =
      account 1 "world:USD" external true (negsuc 49)
      ∷ account 2 "shop" merchant false (pos 50)
      ∷ [];
  transactions =
      txn 1 payment_kind none true "payment"
      ∷ txn 2 refund_kind (some 1) false "refund"
      ∷ txn 3 transfer_kind none false "transfer"
      ∷ [];
  postings =
      posting 1 1 1 (negsuc 99)
      ∷ posting 2 1 2 (pos 100)
      ∷ posting 3 2 2 (negsuc 29)
      ∷ posting 4 2 1 (pos 30)
      ∷ posting 5 3 2 (negsuc 19)
      ∷ posting 6 3 1 (pos 20)
      ∷ [];
  txn_seq = 4;
  posting_seq = 7;
}

abbrev paid : Db
paid = record demo_db {
  accounts =
      account 1 "world:USD" external true (negsuc 79)
      ∷ account 2 "shop" merchant false (pos 80)
      ∷ [];
  transactions =
      txn 1 payment_kind none true "payment"
      ∷ txn 2 refund_kind (some 1) false "refund"
      ∷ txn 3 payment_kind none true "payment"
      ∷ [];
  postings =
      posting 1 1 1 (negsuc 99)
      ∷ posting 2 1 2 (pos 100)
      ∷ posting 3 2 2 (negsuc 29)
      ∷ posting 4 2 1 (pos 30)
      ∷ posting 5 3 1 (negsuc 9)
      ∷ posting 6 3 2 (pos 10)
      ∷ [];
  txn_seq = 4;
  posting_seq = 7;
}

abbrev refunded_db : Db
refunded_db = record demo_db {
  accounts =
      account 1 "world:USD" external true (negsuc 49)
      ∷ account 2 "shop" merchant false (pos 50)
      ∷ [];
  transactions =
      txn 1 payment_kind none true "payment"
      ∷ txn 2 refund_kind (some 1) false "refund"
      ∷ txn 3 refund_kind (some 1) false "refund"
      ∷ [];
  postings =
      posting 1 1 1 (negsuc 99)
      ∷ posting 2 1 2 (pos 100)
      ∷ posting 3 2 2 (negsuc 29)
      ∷ posting 4 2 1 (pos 30)
      ∷ posting 5 3 2 (negsuc 19)
      ∷ posting 6 3 1 (pos 20)
      ∷ [];
  idempotency_keys =
      stored_key "p1" "payment" 1 ∷ stored_key "r1" "refund" 2 ∷ stored_key "r2" "refund" 3 ∷ [];
  txn_seq = 4;
  posting_seq = 7;
}

abbrev at : Db → Session
at db = record { db = db; faults = [] }

abbrev fresh : OpResult
fresh = record { txn_id = 3; replayed = false }

transferred_ok : transfer tag "" 2 1 (pos 20) "USD" demo ≡ (ok fresh, at transferred)
unfolding bytedance_double_entry_l.Prelude.Word.word bytedance_double_entry_l.Prelude.Word.signed
    bytedance_double_entry_l.Prelude.Word.wrap64 bytedance_double_entry_l.Prelude.Word.add64
    bytedance_double_entry_l.Prelude.Word.neg64 bytedance_double_entry_l.Prelude.Word.mul64
    bytedance_double_entry_l.Prelude.Int.◌+ℤ◌ bytedance_double_entry_l.Prelude.Int.◌-ℤ◌
    bytedance_double_entry_l.Prelude.Int.◌*ℤ◌ bytedance_double_entry_l.Prelude.Int.neg
    bytedance_double_entry_l.Money.Currency.find_decimals
    bytedance_double_entry_l.Money.Currency.is_supported
    bytedance_double_entry_l.Money.Currency.decimals
    bytedance_double_entry_l.Money.Currency.scale_loop bytedance_double_entry_l.Money.Currency.scale
    bytedance_double_entry_l.Ledger.Entry.sum_legs bytedance_double_entry_l.Ledger.Entry.all_zero
    bytedance_double_entry_l.Ledger.Entry.validate bytedance_double_entry_l.Store.Schema.rollback
    bytedance_double_entry_l.Store.Session.next_fault bytedance_double_entry_l.Store.Session.query
    bytedance_double_entry_l.Store.Session.exec bytedance_double_entry_l.Store.Session.auto_exec
    bytedance_double_entry_l.Store.Session.◌>>=◌ bytedance_double_entry_l.Store.Session.◌>>◌
    bytedance_double_entry_l.Store.Session.is_retryable
    bytedance_double_entry_l.Store.Session.pg_fault
    bytedance_double_entry_l.Store.Session.retry_or_return
    bytedance_double_entry_l.Store.Session.commit bytedance_double_entry_l.Store.Session.attempt
    bytedance_double_entry_l.Store.Session.attempts bytedance_double_entry_l.Store.Session.run_in_tx
    bytedance_double_entry_l.Store.Accounts.insert_account
    bytedance_double_entry_l.Store.Accounts.create_account
    bytedance_double_entry_l.Store.Accounts.insert_if_absent
    bytedance_double_entry_l.Store.Accounts.scan_account
    bytedance_double_entry_l.Store.Accounts.get_account
    bytedance_double_entry_l.Store.Accounts.get_account_by_name
    bytedance_double_entry_l.Store.Accounts.ensure_account
    bytedance_double_entry_l.Store.Accounts.join_lines
    bytedance_double_entry_l.Store.Accounts.ledger_limit
    bytedance_double_entry_l.Store.Accounts.account_lines
    bytedance_double_entry_l.Store.Accounts.account_ledger
    bytedance_double_entry_l.Store.Posting.distinct_ids
    bytedance_double_entry_l.Store.Posting.distinct_sorted_account_ids
    bytedance_double_entry_l.Store.Posting.locked_rows
    bytedance_double_entry_l.Store.Posting.lock_accounts
    bytedance_double_entry_l.Store.Posting.leg_deltas
    bytedance_double_entry_l.Store.Posting.new_balances
    bytedance_double_entry_l.Store.Posting.insert_txn
    bytedance_double_entry_l.Store.Posting.insert_posting
    bytedance_double_entry_l.Store.Posting.insert_postings
    bytedance_double_entry_l.Store.Posting.update_balance
    bytedance_double_entry_l.Store.Posting.update_balances
    bytedance_double_entry_l.Store.Posting.write_entry
    bytedance_double_entry_l.Store.Posting.post_locked
    bytedance_double_entry_l.Store.Posting.post_entry_tx
    bytedance_double_entry_l.Store.Posting.post_entry_guarded
    bytedance_double_entry_l.Store.Posting.post_entry bytedance_double_entry_l.Ops.transfer_entry
    bytedance_double_entry_l.Ops.payment_entry bytedance_double_entry_l.Ops.post_idem
    bytedance_double_entry_l.Ops.transfer bytedance_double_entry_l.Ops.payment
transferred_ok = refl

paid_ok : payment tag "" 1 2 (pos 10) "USD" demo ≡ (ok fresh, at paid)
unfolding bytedance_double_entry_l.Prelude.Word.word bytedance_double_entry_l.Prelude.Word.signed
    bytedance_double_entry_l.Prelude.Word.wrap64 bytedance_double_entry_l.Prelude.Word.add64
    bytedance_double_entry_l.Prelude.Word.neg64 bytedance_double_entry_l.Prelude.Word.mul64
    bytedance_double_entry_l.Prelude.Int.◌+ℤ◌ bytedance_double_entry_l.Prelude.Int.◌-ℤ◌
    bytedance_double_entry_l.Prelude.Int.◌*ℤ◌ bytedance_double_entry_l.Prelude.Int.neg
    bytedance_double_entry_l.Money.Currency.find_decimals
    bytedance_double_entry_l.Money.Currency.is_supported
    bytedance_double_entry_l.Money.Currency.decimals
    bytedance_double_entry_l.Money.Currency.scale_loop bytedance_double_entry_l.Money.Currency.scale
    bytedance_double_entry_l.Ledger.Entry.sum_legs bytedance_double_entry_l.Ledger.Entry.all_zero
    bytedance_double_entry_l.Ledger.Entry.validate bytedance_double_entry_l.Store.Schema.rollback
    bytedance_double_entry_l.Store.Session.next_fault bytedance_double_entry_l.Store.Session.query
    bytedance_double_entry_l.Store.Session.exec bytedance_double_entry_l.Store.Session.auto_exec
    bytedance_double_entry_l.Store.Session.◌>>=◌ bytedance_double_entry_l.Store.Session.◌>>◌
    bytedance_double_entry_l.Store.Session.is_retryable
    bytedance_double_entry_l.Store.Session.pg_fault
    bytedance_double_entry_l.Store.Session.retry_or_return
    bytedance_double_entry_l.Store.Session.commit bytedance_double_entry_l.Store.Session.attempt
    bytedance_double_entry_l.Store.Session.attempts bytedance_double_entry_l.Store.Session.run_in_tx
    bytedance_double_entry_l.Store.Accounts.insert_account
    bytedance_double_entry_l.Store.Accounts.create_account
    bytedance_double_entry_l.Store.Accounts.insert_if_absent
    bytedance_double_entry_l.Store.Accounts.scan_account
    bytedance_double_entry_l.Store.Accounts.get_account
    bytedance_double_entry_l.Store.Accounts.get_account_by_name
    bytedance_double_entry_l.Store.Accounts.ensure_account
    bytedance_double_entry_l.Store.Accounts.join_lines
    bytedance_double_entry_l.Store.Accounts.ledger_limit
    bytedance_double_entry_l.Store.Accounts.account_lines
    bytedance_double_entry_l.Store.Accounts.account_ledger
    bytedance_double_entry_l.Store.Posting.distinct_ids
    bytedance_double_entry_l.Store.Posting.distinct_sorted_account_ids
    bytedance_double_entry_l.Store.Posting.locked_rows
    bytedance_double_entry_l.Store.Posting.lock_accounts
    bytedance_double_entry_l.Store.Posting.leg_deltas
    bytedance_double_entry_l.Store.Posting.new_balances
    bytedance_double_entry_l.Store.Posting.insert_txn
    bytedance_double_entry_l.Store.Posting.insert_posting
    bytedance_double_entry_l.Store.Posting.insert_postings
    bytedance_double_entry_l.Store.Posting.update_balance
    bytedance_double_entry_l.Store.Posting.update_balances
    bytedance_double_entry_l.Store.Posting.write_entry
    bytedance_double_entry_l.Store.Posting.post_locked
    bytedance_double_entry_l.Store.Posting.post_entry_tx
    bytedance_double_entry_l.Store.Posting.post_entry_guarded
    bytedance_double_entry_l.Store.Posting.post_entry bytedance_double_entry_l.Ops.transfer_entry
    bytedance_double_entry_l.Ops.payment_entry bytedance_double_entry_l.Ops.post_idem
    bytedance_double_entry_l.Ops.transfer bytedance_double_entry_l.Ops.payment
paid_ok = refl

transfer_moves_example :
    ((2 == 1) ≡ false)
    × (((fresh.replayed ≡ true) × SameRows demo_db transferred)
        ⊎ ((fresh.replayed ≡ false)
            × (pos 0 <ℤ pos 20)
            × (transferred.accounts ≡ map (moved_row 2 1 (pos 20)) demo_db.accounts)
            × ((i : ℕ) → book transferred i ≡ book demo_db i +ℤ moved 2 1 (pos 20) i)))
transfer_moves_example =
    transfer_moves tag "" (pos 20) (omega arith, omega arith) demo demo_db-IsSound.consistent fresh
      (at transferred) 2 1 "USD" transferred_ok

payment_moves_example :
    ((fresh.replayed ≡ true) × SameRows demo_db paid)
    ⊎ ((fresh.replayed ≡ false)
        × (pos 0 <ℤ pos 10)
        × (paid.accounts ≡ map (moved_row 1 2 (pos 10)) demo_db.accounts)
        × ((i : ℕ) → book paid i ≡ book demo_db i +ℤ moved 1 2 (pos 10) i))
payment_moves_example =
    payment_moves tag "" (pos 10) (omega arith, omega arith) demo demo_db-IsSound.consistent fresh
      (at paid) 1 2 "USD" paid_ok

refunded_ok : refund tag "r2" 1 (pos 20) demo ≡ (ok fresh, at refunded_db)
unfolding bytedance_double_entry_l.Prelude.Word.word bytedance_double_entry_l.Prelude.Word.signed
    bytedance_double_entry_l.Prelude.Word.wrap64 bytedance_double_entry_l.Prelude.Word.add64
    bytedance_double_entry_l.Prelude.Word.neg64 bytedance_double_entry_l.Prelude.Word.mul64
    bytedance_double_entry_l.Prelude.Int.◌+ℤ◌ bytedance_double_entry_l.Prelude.Int.◌-ℤ◌
    bytedance_double_entry_l.Prelude.Int.◌*ℤ◌ bytedance_double_entry_l.Prelude.Int.neg
    bytedance_double_entry_l.Money.Currency.find_decimals
    bytedance_double_entry_l.Money.Currency.is_supported
    bytedance_double_entry_l.Money.Currency.decimals
    bytedance_double_entry_l.Money.Currency.scale_loop bytedance_double_entry_l.Money.Currency.scale
    bytedance_double_entry_l.Ledger.Entry.sum_legs bytedance_double_entry_l.Ledger.Entry.all_zero
    bytedance_double_entry_l.Ledger.Entry.validate bytedance_double_entry_l.Store.Schema.rollback
    bytedance_double_entry_l.Store.Session.next_fault bytedance_double_entry_l.Store.Session.query
    bytedance_double_entry_l.Store.Session.exec bytedance_double_entry_l.Store.Session.auto_exec
    bytedance_double_entry_l.Store.Session.◌>>=◌ bytedance_double_entry_l.Store.Session.◌>>◌
    bytedance_double_entry_l.Store.Session.is_retryable
    bytedance_double_entry_l.Store.Session.pg_fault
    bytedance_double_entry_l.Store.Session.retry_or_return
    bytedance_double_entry_l.Store.Session.commit bytedance_double_entry_l.Store.Session.attempt
    bytedance_double_entry_l.Store.Session.attempts bytedance_double_entry_l.Store.Session.run_in_tx
    bytedance_double_entry_l.Store.Accounts.insert_account
    bytedance_double_entry_l.Store.Accounts.create_account
    bytedance_double_entry_l.Store.Accounts.insert_if_absent
    bytedance_double_entry_l.Store.Accounts.scan_account
    bytedance_double_entry_l.Store.Accounts.get_account
    bytedance_double_entry_l.Store.Accounts.get_account_by_name
    bytedance_double_entry_l.Store.Accounts.ensure_account
    bytedance_double_entry_l.Store.Accounts.join_lines
    bytedance_double_entry_l.Store.Accounts.ledger_limit
    bytedance_double_entry_l.Store.Accounts.account_lines
    bytedance_double_entry_l.Store.Accounts.account_ledger
    bytedance_double_entry_l.Store.Posting.distinct_ids
    bytedance_double_entry_l.Store.Posting.distinct_sorted_account_ids
    bytedance_double_entry_l.Store.Posting.locked_rows
    bytedance_double_entry_l.Store.Posting.lock_accounts
    bytedance_double_entry_l.Store.Posting.leg_deltas
    bytedance_double_entry_l.Store.Posting.new_balances
    bytedance_double_entry_l.Store.Posting.insert_txn
    bytedance_double_entry_l.Store.Posting.insert_posting
    bytedance_double_entry_l.Store.Posting.insert_postings
    bytedance_double_entry_l.Store.Posting.update_balance
    bytedance_double_entry_l.Store.Posting.update_balances
    bytedance_double_entry_l.Store.Posting.write_entry
    bytedance_double_entry_l.Store.Posting.post_locked
    bytedance_double_entry_l.Store.Posting.post_entry_tx
    bytedance_double_entry_l.Store.Posting.post_entry_guarded
    bytedance_double_entry_l.Store.Posting.post_entry
    bytedance_double_entry_l.Store.Payments.payment_kind
    bytedance_double_entry_l.Store.Payments.scan_leg
    bytedance_double_entry_l.Store.Payments.scan_legs
    bytedance_double_entry_l.Store.Payments.checked_legs
    bytedance_double_entry_l.Store.Payments.payment_rows
    bytedance_double_entry_l.Store.Payments.get_payment_legs
    bytedance_double_entry_l.Store.Payments.scan_int64
    bytedance_double_entry_l.Store.Payments.refunded
    bytedance_double_entry_l.Store.Payments.refunded_so_far
    bytedance_double_entry_l.Store.Idempotency.set_field
    bytedance_double_entry_l.Store.Idempotency.bind_txn_id
    bytedance_double_entry_l.Store.Idempotency.claim_key
    bytedance_double_entry_l.Store.Idempotency.finalize_key
    bytedance_double_entry_l.Store.Idempotency.read_replay
    bytedance_double_entry_l.Store.Idempotency.post_owned
    bytedance_double_entry_l.Store.Idempotency.idempotent_tx
    bytedance_double_entry_l.Store.Idempotency.post_entry_idempotent_guarded
    bytedance_double_entry_l.Store.Idempotency.post_entry_idempotent
    bytedance_double_entry_l.Ops.transfer_entry bytedance_double_entry_l.Ops.payment_entry
    bytedance_double_entry_l.Ops.refund_entry bytedance_double_entry_l.Ops.refund_guard
    bytedance_double_entry_l.Ops.post_idem bytedance_double_entry_l.Ops.transfer
    bytedance_double_entry_l.Ops.payment bytedance_double_entry_l.Ops.post_refund
    bytedance_double_entry_l.Ops.refund
refunded_ok = refl

refund_moves_example :
    (legs : PaymentLegs) × (t : Session) × (get_payment_legs 1 demo ≡ (ok legs, t))
    × (((fresh.replayed ≡ true) × SameRows demo_db refunded_db)
        ⊎ ((fresh.replayed ≡ false)
            × (pos 0 <ℤ pos 20)
            × (refunded_db.accounts
                ≡ map
                    (moved_row legs.merchant_account_id legs.source_account_id (pos 20))
                    demo_db.accounts)
            × ((a : ℕ)
                → book refunded_db a
                  ≡ book demo_db a
                    +ℤ moved legs.merchant_account_id legs.source_account_id (pos 20) a)))
refund_moves_example =
    refund_moves tag "r2" (pos 20) (omega arith, omega arith) demo demo_db-IsSound.consistent fresh
      (at refunded_db) 1 refunded_ok
