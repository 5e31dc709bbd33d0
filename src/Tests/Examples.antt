-- ===== src/Tests/Examples.antt =====
-- The theorems on the ledger and its entries at concrete inputs.
use bytedance_double_entry_l.Prelude.{
  map, ℕ, suc, ◌≡◌, ◌<◌, ◌≤◌, ◌+◌, ◌*◌, ◌^◌, refl, ◌↔◌, ◌⊎◌, String, str_eq, Bool, Bool-cases, true,
  false, Option, none, some, inl, inr, List, [], ◌∷◌, ◌++◌, All, total, arith, if◌then◌else◌,
}
use bytedance_double_entry_l.Prelude.Int.{
  ℤ, pos, negsuc, pos_part, neg_part, neg, ltb_ℤ, ◌+ℤ◌, ◌≤ℤ◌,
}
use bytedance_double_entry_l.Prelude.Word.{InRange}
use bytedance_double_entry_l.Errors.{serialization_failure, unacknowledged, ok}
use bytedance_double_entry_l.Money.Currency.{Currency, is_supported, find_decimals}
use bytedance_double_entry_l.Ledger.Entry.{Entry, validate}
use bytedance_double_entry_l.Ledger.Balance.{Accepted, leg_in, validate_iff, validate_exact}
use bytedance_double_entry_l.Store.Schema.{Db, SameRows}
use bytedance_double_entry_l.Store.Session.{Session, run_in_tx}
use bytedance_double_entry_l.Store.Session.Atomic.{Ran, run_in_tx-Ran}
use bytedance_double_entry_l.Store.Posting.{
  PostResult, Guard, txn_row, post_entry_tx, post_entry_guarded,
}
use bytedance_double_entry_l.Store.Posting.Commit.{post_rows}
use bytedance_double_entry_l.Store.Books.{book, IsCovered, IsConsistent}
use bytedance_double_entry_l.Store.Books.Sound.{
  IsSound, empty_db-IsSound, post_entry_guarded-IsConsistent,
}
use bytedance_double_entry_l.Store.Payments.{PaymentLegs, refunded}
use bytedance_double_entry_l.Store.Idempotency.{IdemResult, post_entry_idempotent_guarded}
use bytedance_double_entry_l.Store.Idempotency.Replay.{completed_call-returns}
use bytedance_double_entry_l.Store.Idempotency.Retry.{
  Called, call-Called, conflicting_call, calls, calls_post_once,
}
use bytedance_double_entry_l.Ops.{empty_response, transfer_entry, refund_entry, refund_guard}
use bytedance_double_entry_l.Store.Posting.Balances.{leg_to}
use bytedance_double_entry_l.Store.Books.Credited.{credited, post_entry_tx-credits}
use bytedance_double_entry_l.Ops.Sequence.{run_calls, run_calls-IsSound}
use bytedance_double_entry_l.Ops.Refund.{IsNumbered, refund_bounded}
use bytedance_double_entry_l.Settle.Reconcile.{ReconcileReport, reconcile}
use bytedance_double_entry_l.Settle.Clean.{reconcile-clean}
use bytedance_double_entry_l.Tests.Fixtures.{
  demo_db-HasSizedSums, tag, start, batch_calls, batch_calls-IsSized, demo_db, demo,
  demo_db-IsSound, response_of,
}

abbrev move : Entry
move = transfer_entry 2 1 (pos 20) "USD"

-- the demonstration ledger behind a server that aborts one transaction and loses one answer
abbrev faulty : Session
faulty = record {
  db = demo_db;
  faults =
      none
      ∷ none
      ∷ some serialization_failure
      ∷ none
      ∷ none
      ∷ none
      ∷ none
      ∷ none
      ∷ none
      ∷ none
      ∷ none
      ∷ none
      ∷ some unacknowledged
      ∷ [];
}

run_calls-IsSound_example : IsSound (run_calls tag batch_calls start).db
run_calls-IsSound_example =
    run_calls-IsSound tag batch_calls start batch_calls-IsSized empty_db-IsSound

calls_post_once_example :
    ((calls "t1" "transfer" move empty_response none 3 faulty).db.transactions
      ≡ demo_db.transactions)
    ⊎ ((i : ℕ) × ((calls "t1" "transfer" move empty_response none 3 faulty).db.transactions
          ≡ demo_db.transactions ++ txn_row i move ∷ []))
calls_post_once_example = calls_post_once "t1" "transfer" move empty_response none 3 faulty

call-Called_example :
    let (r, s') = post_entry_idempotent_guarded "t1" "transfer" move empty_response none faulty in
    Called "t1" "transfer" move empty_response none faulty r s'
call-Called_example = call-Called "t1" "transfer" move empty_response none faulty

completed_call-returns_example :
    post_entry_idempotent_guarded "p1" "payment" move empty_response none demo
    ≡ (ok (record { txn_id = 1; replayed = true; response = response_of 1 }), demo)
completed_call-returns_example =
    completed_call-returns "p1" "payment" move empty_response none demo_db 1 (response_of 1) refl
      refl

conflicting_call_example :
    let (r, s') = post_entry_idempotent_guarded "p1" "transfer" move empty_response none faulty in
    SameRows demo_db s'.db × ((x : IdemResult) → r ≡ ok x → ⊥)
conflicting_call_example =
    conflicting_call "p1" "transfer" move empty_response none faulty "payment" 1 (response_of 1)
      refl refl

run_in_tx-Ran_example :
    let (r, s') = run_in_tx (post_entry_tx move none) faulty in
    Ran (post_entry_tx move none) faulty r s'
run_in_tx-Ran_example = run_in_tx-Ran (post_entry_tx move none) faulty

post_entry_guarded-IsConsistent_example : IsConsistent (post_entry_guarded move none faulty).1.db
post_entry_guarded-IsConsistent_example =
    post_entry_guarded-IsConsistent move none faulty demo_db-IsSound.consistent

validate_iff_example : (validate move ≡ ok tt) ↔ Accepted move
validate_iff_example = validate_iff move

abbrev moved : PostResult
moved = record { txn_id = 3; balances = (1, negsuc 49) ∷ (2, pos 50) ∷ [] }

abbrev after_move : Session
after_move = record { db = post_rows move moved.balances demo_db; faults = [] }

move-runs : post_entry_tx move none demo ≡ (ok moved, after_move)
unfolding bytedance_double_entry_l.Prelude.Word.word bytedance_double_entry_l.Prelude.Word.signed
    bytedance_double_entry_l.Prelude.Word.wrap64 bytedance_double_entry_l.Prelude.Word.add64
    bytedance_double_entry_l.Prelude.Word.neg64 bytedance_double_entry_l.Prelude.Word.mul64
    bytedance_double_entry_l.Prelude.Int.◌+ℤ◌ bytedance_double_entry_l.Prelude.Int.◌-ℤ◌
    bytedance_double_entry_l.Prelude.Int.◌*ℤ◌ bytedance_double_entry_l.Prelude.Int.neg
    bytedance_double_entry_l.Money.Currency.find_decimals
    bytedance_double_entry_l.Money.Currency.is_supported
    bytedance_double_entry_l.Money.Currency.decimals
    bytedance_double_entry_l.Money.Currency.scale_loop bytedance_double_entry_l.Money.Currency.scale
    bytedance_double_entry_l.Ledger.Entry.sum_legs bytedance_double_entry_l.Ledger.Entry.all_zero
    bytedance_double_entry_l.Ledger.Entry.validate bytedance_double_entry_l.Store.Schema.rollback
    bytedance_double_entry_l.Store.Session.next_fault bytedance_double_entry_l.Store.Session.query
    bytedance_double_entry_l.Store.Session.exec bytedance_double_entry_l.Store.Session.auto_exec
    bytedance_double_entry_l.Store.Session.◌>>=◌ bytedance_double_entry_l.Store.Session.◌>>◌
    bytedance_double_entry_l.Store.Session.is_retryable
    bytedance_double_entry_l.Store.Session.pg_fault
    bytedance_double_entry_l.Store.Session.retry_or_return
    bytedance_double_entry_l.Store.Session.commit bytedance_double_entry_l.Store.Session.attempt
    bytedance_double_entry_l.Store.Session.attempts bytedance_double_entry_l.Store.Session.run_in_tx
    bytedance_double_entry_l.Store.Accounts.insert_account
    bytedance_double_entry_l.Store.Accounts.create_account
    bytedance_double_entry_l.Store.Accounts.insert_if_absent
    bytedance_double_entry_l.Store.Accounts.scan_account
    bytedance_double_entry_l.Store.Accounts.get_account
    bytedance_double_entry_l.Store.Accounts.get_account_by_name
    bytedance_double_entry_l.Store.Accounts.ensure_account
    bytedance_double_entry_l.Store.Accounts.join_lines
    bytedance_double_entry_l.Store.Accounts.ledger_limit
    bytedance_double_entry_l.Store.Accounts.account_lines
    bytedance_double_entry_l.Store.Accounts.account_ledger
    bytedance_double_entry_l.Store.Posting.distinct_ids
    bytedance_double_entry_l.Store.Posting.distinct_sorted_account_ids
    bytedance_double_entry_l.Store.Posting.locked_rows
    bytedance_double_entry_l.Store.Posting.lock_accounts
    bytedance_double_entry_l.Store.Posting.leg_deltas
    bytedance_double_entry_l.Store.Posting.new_balances
    bytedance_double_entry_l.Store.Posting.insert_txn
    bytedance_double_entry_l.Store.Posting.insert_posting
    bytedance_double_entry_l.Store.Posting.insert_postings
    bytedance_double_entry_l.Store.Posting.update_balance
    bytedance_double_entry_l.Store.Posting.update_balances
    bytedance_double_entry_l.Store.Posting.write_entry
    bytedance_double_entry_l.Store.Posting.post_locked
    bytedance_double_entry_l.Store.Posting.post_entry_tx
    bytedance_double_entry_l.Store.Posting.post_entry_guarded
    bytedance_double_entry_l.Store.Posting.post_entry
    bytedance_double_entry_l.Store.Payments.payment_kind
    bytedance_double_entry_l.Store.Payments.scan_leg
    bytedance_double_entry_l.Store.Payments.scan_legs
    bytedance_double_entry_l.Store.Payments.checked_legs
    bytedance_double_entry_l.Store.Payments.payment_rows
    bytedance_double_entry_l.Store.Payments.get_payment_legs
    bytedance_double_entry_l.Store.Payments.scan_int64
    bytedance_double_entry_l.Store.Payments.refunded
    bytedance_double_entry_l.Store.Payments.refunded_so_far
    bytedance_double_entry_l.Store.Idempotency.set_field
    bytedance_double_entry_l.Store.Idempotency.bind_txn_id
    bytedance_double_entry_l.Store.Idempotency.claim_key
    bytedance_double_entry_l.Store.Idempotency.finalize_key
    bytedance_double_entry_l.Store.Idempotency.read_replay
    bytedance_double_entry_l.Store.Idempotency.post_owned
    bytedance_double_entry_l.Store.Idempotency.idempotent_tx
    bytedance_double_entry_l.Store.Idempotency.post_entry_idempotent_guarded
    bytedance_double_entry_l.Store.Idempotency.post_entry_idempotent
    bytedance_double_entry_l.Ops.transfer_entry bytedance_double_entry_l.Ops.payment_entry
    bytedance_double_entry_l.Ops.refund_entry bytedance_double_entry_l.Ops.refund_guard
    bytedance_double_entry_l.Ops.post_idem bytedance_double_entry_l.Ops.transfer
    bytedance_double_entry_l.Ops.payment bytedance_double_entry_l.Ops.post_refund
    bytedance_double_entry_l.Ops.refund bytedance_double_entry_l.Ops.Sequence.run_call
    bytedance_double_entry_l.Ops.Sequence.run_calls
move-runs = refl

post_entry_tx-credits_example :
    (after_move.db.accounts ≡ map (credited move.legs) demo_db.accounts)
    × All IsCovered after_move.db.accounts
    × (after_move.db.transactions ≡ demo_db.transactions ++ txn_row moved.txn_id move ∷ [])
    × ((i : ℕ) → book after_move.db i ≡ book demo_db i +ℤ total (leg_to i) move.legs)
post_entry_tx-credits_example =
    post_entry_tx-credits move none demo demo_db-IsSound.consistent move-runs

move-InRange : (c : Currency) → InRange (total (leg_in c) move.legs)
unfolding transfer_entry bytedance_double_entry_l.Prelude.Word.neg64
    bytedance_double_entry_l.Prelude.Word.wrap64 bytedance_double_entry_l.Prelude.Word.word
    bytedance_double_entry_l.Prelude.Word.signed bytedance_double_entry_l.Prelude.Int.neg ◌+ℤ◌
move-InRange c = elim (Bool-cases (str_eq "USD" c)) [
  | inl same ↦ rw same (omega arith, omega arith)
  | inr differs ↦ rw differs (omega arith, omega arith)
]

move-validates : validate move ≡ ok tt
unfolding validate transfer_entry bytedance_double_entry_l.Ledger.Entry.sum_legs
    bytedance_double_entry_l.Prelude.Word.neg64 is_supported
    bytedance_double_entry_l.Ledger.Entry.all_zero bytedance_double_entry_l.Prelude.Word.add64
move-validates = refl

validate_exact_example : total (leg_in "USD") move.legs ≡ pos 0
validate_exact_example = validate_exact move move-InRange move-validates "USD"

abbrev captured : PaymentLegs
captured = record {
  merchant_account_id = 2;
  source_account_id = 1;
  currency = "USD";
  captured = pos 100;
}

demo_db-IsNumbered : IsNumbered demo_db
demo_db-IsNumbered = (omega arith, (omega arith, (omega arith, (omega arith, tt))))

refunded_small : pos_part (refunded 1 2 demo_db +ℤ pos 70) < 2 ^ 63
unfolding ◌+ℤ◌ refunded neg
refunded_small = omega arith

refund_bounded_example :
    let s' =
      (post_entry_idempotent_guarded "r2" "refund"
        (refund_entry 1 captured (pos 70))
        empty_response
        (some (refund_guard 1 captured (pos 70)))
        demo).1 in
    SameRows demo_db s'.db
    ⊎ ((refunded 1 2 s'.db ≡ refunded 1 2 demo_db +ℤ pos 70) × (refunded 1 2 s'.db ≤ℤ pos 100))
refund_bounded_example =
    refund_bounded 1 captured (pos 70) "r2" "refund" empty_response demo (omega arith, omega arith)
      (omega arith) demo_db-IsNumbered refunded_small

reconcile-clean_example :
    (rep : ReconcileReport) × (reconcile demo ≡ (ok rep, demo))
    × (rep.is_ok ≡ true)
    × (rep.balance_drift ≡ [])
    × (rep.unbalanced ≡ [])
reconcile-clean_example = reconcile-clean demo_db demo_db-IsSound demo_db-HasSizedSums
