-- ===== src/Tests/Settlements.antt =====
-- A payment that is settled, and a batch after it.
use bytedance_double_entry_l.Prelude.{
  ◌≡◌, refl, ℕ, Bool, true, false, Option, none, some, List, [], ◌∷◌, All, arith,
}
use bytedance_double_entry_l.Prelude.Int.{ℤ, pos, negsuc}
use bytedance_double_entry_l.Errors.{ok}
use bytedance_double_entry_l.Ledger.Entry.{
  external, merchant, payout as payout_kind, payment as payment_kind, settlement as settlement_kind,
}
use bytedance_double_entry_l.Store.Schema.{Db, TxnRow, PostingRow, BatchRow}
use bytedance_double_entry_l.Store.Session.{Session}
use bytedance_double_entry_l.Store.Settlement.{SettlementResult, is_pending, run_settlement}
use bytedance_double_entry_l.Store.Settlement.Once.{IsIssued}
use bytedance_double_entry_l.Store.Settlement.Settles.{settled_once}
use bytedance_double_entry_l.Tests.Fixtures.{txn, posting, account}

-- the world has paid 100 to a shop
abbrev paid_db : Db
paid_db = record {
  accounts =
      account 1 "world:USD" external true (negsuc 99)
      ∷ account 2 "shop" merchant false (pos 100)
      ∷ account 3 "payout:USD" payout_kind true (pos 0)
      ∷ [];
  transactions = txn 1 payment_kind none true "payment" ∷ [];
  postings = posting 1 1 1 (negsuc 99) ∷ posting 2 1 2 (pos 100) ∷ [];
  idempotency_keys = [];
  settlement_batches = [];
  account_seq = 4;
  txn_seq = 2;
  posting_seq = 3;
  batch_seq = 1;
}

paid_db-IsIssued : IsIssued paid_db
paid_db-IsIssued = record {
  transactions = (omega arith, tt);
  postings = (omega arith, (omega arith, tt));
}

abbrev batch_row : ℕ → ℕ → ℤ → BatchRow
batch_row i count sum = record { id = i; item_count = count; net_total = sum }

-- after the batch
abbrev settled_db : List BatchRow → ℕ → Db
settled_db batches next = record {
  accounts =
      account 1 "world:USD" external true (negsuc 99)
      ∷ account 2 "shop" merchant false (pos 0)
      ∷ account 3 "payout:USD" payout_kind true (pos 100)
      ∷ [];
  transactions =
      record (txn 1 payment_kind none false "payment") { settled = true; settle_batch_id = some 1 }
      ∷ txn 2 settlement_kind none false "settlement payout"
      ∷ [];
  postings =
      posting 1 1 1 (negsuc 99)
      ∷ posting 2 1 2 (pos 100)
      ∷ posting 3 2 2 (negsuc 99)
      ∷ posting 4 2 3 (pos 100)
      ∷ [];
  idempotency_keys = [];
  settlement_batches = batches;
  account_seq = 4;
  txn_seq = 3;
  posting_seq = 5;
  batch_seq = next;
}

abbrev at : Db → Session
at db = record { db = db; faults = [] }

abbrev result : ℕ → ℕ → ℕ → ℤ → List ℕ → SettlementResult
result batch items merchants net txns = record {
  batch_id = batch;
  item_count = items;
  merchant_n = merchants;
  net_total = net;
  payout_txns = txns;
}

abbrev once : Db
once = settled_db (batch_row 1 1 (pos 100) ∷ []) 2

abbrev twice : Db
twice = settled_db (batch_row 1 1 (pos 100) ∷ batch_row 2 0 (pos 0) ∷ []) 3

first_batch : run_settlement (at paid_db) ≡ (ok (result 1 1 1 (pos 100) (2 ∷ [])), at once)
unfolding bytedance_double_entry_l.Prelude.Word.word bytedance_double_entry_l.Prelude.Word.signed
    bytedance_double_entry_l.Prelude.Word.wrap64 bytedance_double_entry_l.Prelude.Word.add64
    bytedance_double_entry_l.Prelude.Word.neg64 bytedance_double_entry_l.Prelude.Word.mul64
    bytedance_double_entry_l.Prelude.Int.◌+ℤ◌ bytedance_double_entry_l.Prelude.Int.◌-ℤ◌
    bytedance_double_entry_l.Prelude.Int.◌*ℤ◌ bytedance_double_entry_l.Prelude.Int.neg
    bytedance_double_entry_l.Money.Currency.find_decimals
    bytedance_double_entry_l.Money.Currency.is_supported
    bytedance_double_entry_l.Money.Currency.decimals
    bytedance_double_entry_l.Money.Currency.scale_loop bytedance_double_entry_l.Money.Currency.scale
    bytedance_double_entry_l.Ledger.Entry.sum_legs bytedance_double_entry_l.Ledger.Entry.all_zero
    bytedance_double_entry_l.Ledger.Entry.validate bytedance_double_entry_l.Store.Schema.rollback
    bytedance_double_entry_l.Store.Session.next_fault bytedance_double_entry_l.Store.Session.query
    bytedance_double_entry_l.Store.Session.exec bytedance_double_entry_l.Store.Session.auto_exec
    bytedance_double_entry_l.Store.Session.◌>>=◌ bytedance_double_entry_l.Store.Session.◌>>◌
    bytedance_double_entry_l.Store.Session.is_retryable
    bytedance_double_entry_l.Store.Session.pg_fault
    bytedance_double_entry_l.Store.Session.retry_or_return
    bytedance_double_entry_l.Store.Session.commit bytedance_double_entry_l.Store.Session.attempt
    bytedance_double_entry_l.Store.Session.attempts bytedance_double_entry_l.Store.Session.run_in_tx
    bytedance_double_entry_l.Store.Posting.distinct_ids
    bytedance_double_entry_l.Store.Posting.distinct_sorted_account_ids
    bytedance_double_entry_l.Store.Posting.locked_rows
    bytedance_double_entry_l.Store.Posting.lock_accounts
    bytedance_double_entry_l.Store.Posting.leg_deltas
    bytedance_double_entry_l.Store.Posting.new_balances
    bytedance_double_entry_l.Store.Posting.insert_txn
    bytedance_double_entry_l.Store.Posting.insert_posting
    bytedance_double_entry_l.Store.Posting.insert_postings
    bytedance_double_entry_l.Store.Posting.update_balance
    bytedance_double_entry_l.Store.Posting.update_balances
    bytedance_double_entry_l.Store.Posting.write_entry
    bytedance_double_entry_l.Store.Posting.post_locked
    bytedance_double_entry_l.Store.Posting.post_entry_tx
    bytedance_double_entry_l.Store.Posting.post_entry_guarded
    bytedance_double_entry_l.Store.Posting.post_entry
    bytedance_double_entry_l.Store.Payments.scan_int64
    bytedance_double_entry_l.Store.Queries.scan_all
    bytedance_double_entry_l.Store.Queries.distinct_keys
    bytedance_double_entry_l.Store.Settlement.payout_account_name
    bytedance_double_entry_l.Store.Settlement.is_pending
    bytedance_double_entry_l.Store.Settlement.merchant_keys
    bytedance_double_entry_l.Store.Settlement.sorted_keys
    bytedance_double_entry_l.Store.Settlement.candidate_merchants
    bytedance_double_entry_l.Store.Settlement.payout_account
    bytedance_double_entry_l.Store.Settlement.payout_accounts
    bytedance_double_entry_l.Store.Settlement.union_ids
    bytedance_double_entry_l.Store.Settlement.union_sorted_ids
    bytedance_double_entry_l.Store.Settlement.refunds_total
    bytedance_double_entry_l.Store.Settlement.net_of
    bytedance_double_entry_l.Store.Settlement.locked_pending
    bytedance_double_entry_l.Store.Settlement.net_rows
    bytedance_double_entry_l.Store.Settlement.pending_ids
    bytedance_double_entry_l.Store.Settlement.compute_nets_locked
    bytedance_double_entry_l.Store.Settlement.insert_batch
    bytedance_double_entry_l.Store.Settlement.payout_of
    bytedance_double_entry_l.Store.Settlement.payout_entry
    bytedance_double_entry_l.Store.Settlement.pay_nets
    bytedance_double_entry_l.Store.Settlement.mark_settled
    bytedance_double_entry_l.Store.Settlement.finalize_batch
    bytedance_double_entry_l.Store.Settlement.pay_batch
    bytedance_double_entry_l.Store.Settlement.settle_locked
    bytedance_double_entry_l.Store.Settlement.settlement_tx
    bytedance_double_entry_l.Store.Settlement.run_settlement
first_batch = refl

second_batch : run_settlement (at once) ≡ (ok (result 2 0 0 (pos 0) []), at twice)
unfolding bytedance_double_entry_l.Prelude.Word.word bytedance_double_entry_l.Prelude.Word.signed
    bytedance_double_entry_l.Prelude.Word.wrap64 bytedance_double_entry_l.Prelude.Word.add64
    bytedance_double_entry_l.Prelude.Word.neg64 bytedance_double_entry_l.Prelude.Word.mul64
    bytedance_double_entry_l.Prelude.Int.◌+ℤ◌ bytedance_double_entry_l.Prelude.Int.◌-ℤ◌
    bytedance_double_entry_l.Prelude.Int.◌*ℤ◌ bytedance_double_entry_l.Prelude.Int.neg
    bytedance_double_entry_l.Money.Currency.find_decimals
    bytedance_double_entry_l.Money.Currency.is_supported
    bytedance_double_entry_l.Money.Currency.decimals
    bytedance_double_entry_l.Money.Currency.scale_loop bytedance_double_entry_l.Money.Currency.scale
    bytedance_double_entry_l.Ledger.Entry.sum_legs bytedance_double_entry_l.Ledger.Entry.all_zero
    bytedance_double_entry_l.Ledger.Entry.validate bytedance_double_entry_l.Store.Schema.rollback
    bytedance_double_entry_l.Store.Session.next_fault bytedance_double_entry_l.Store.Session.query
    bytedance_double_entry_l.Store.Session.exec bytedance_double_entry_l.Store.Session.auto_exec
    bytedance_double_entry_l.Store.Session.◌>>=◌ bytedance_double_entry_l.Store.Session.◌>>◌
    bytedance_double_entry_l.Store.Session.is_retryable
    bytedance_double_entry_l.Store.Session.pg_fault
    bytedance_double_entry_l.Store.Session.retry_or_return
    bytedance_double_entry_l.Store.Session.commit bytedance_double_entry_l.Store.Session.attempt
    bytedance_double_entry_l.Store.Session.attempts bytedance_double_entry_l.Store.Session.run_in_tx
    bytedance_double_entry_l.Store.Posting.distinct_ids
    bytedance_double_entry_l.Store.Posting.distinct_sorted_account_ids
    bytedance_double_entry_l.Store.Posting.locked_rows
    bytedance_double_entry_l.Store.Posting.lock_accounts
    bytedance_double_entry_l.Store.Posting.leg_deltas
    bytedance_double_entry_l.Store.Posting.new_balances
    bytedance_double_entry_l.Store.Posting.insert_txn
    bytedance_double_entry_l.Store.Posting.insert_posting
    bytedance_double_entry_l.Store.Posting.insert_postings
    bytedance_double_entry_l.Store.Posting.update_balance
    bytedance_double_entry_l.Store.Posting.update_balances
    bytedance_double_entry_l.Store.Posting.write_entry
    bytedance_double_entry_l.Store.Posting.post_locked
    bytedance_double_entry_l.Store.Posting.post_entry_tx
    bytedance_double_entry_l.Store.Posting.post_entry_guarded
    bytedance_double_entry_l.Store.Posting.post_entry
    bytedance_double_entry_l.Store.Payments.scan_int64
    bytedance_double_entry_l.Store.Queries.scan_all
    bytedance_double_entry_l.Store.Queries.distinct_keys
    bytedance_double_entry_l.Store.Settlement.payout_account_name
    bytedance_double_entry_l.Store.Settlement.is_pending
    bytedance_double_entry_l.Store.Settlement.merchant_keys
    bytedance_double_entry_l.Store.Settlement.sorted_keys
    bytedance_double_entry_l.Store.Settlement.candidate_merchants
    bytedance_double_entry_l.Store.Settlement.payout_account
    bytedance_double_entry_l.Store.Settlement.payout_accounts
    bytedance_double_entry_l.Store.Settlement.union_ids
    bytedance_double_entry_l.Store.Settlement.union_sorted_ids
    bytedance_double_entry_l.Store.Settlement.refunds_total
    bytedance_double_entry_l.Store.Settlement.net_of
    bytedance_double_entry_l.Store.Settlement.locked_pending
    bytedance_double_entry_l.Store.Settlement.net_rows
    bytedance_double_entry_l.Store.Settlement.pending_ids
    bytedance_double_entry_l.Store.Settlement.compute_nets_locked
    bytedance_double_entry_l.Store.Settlement.insert_batch
    bytedance_double_entry_l.Store.Settlement.payout_of
    bytedance_double_entry_l.Store.Settlement.payout_entry
    bytedance_double_entry_l.Store.Settlement.pay_nets
    bytedance_double_entry_l.Store.Settlement.mark_settled
    bytedance_double_entry_l.Store.Settlement.finalize_batch
    bytedance_double_entry_l.Store.Settlement.pay_batch
    bytedance_double_entry_l.Store.Settlement.settle_locked
    bytedance_double_entry_l.Store.Settlement.settlement_tx
    bytedance_double_entry_l.Store.Settlement.run_settlement
second_batch = refl

settled_once_example :
    All (λ (p : PostingRow). is_pending once p ≡ false) once.postings
    × ((result 2 0 0 (pos 0) []).payout_txns ≡ [])
    × ((result 2 0 0 (pos 0) []).item_count ≡ 0)
    × (twice.postings ≡ once.postings)
    × (twice.accounts ≡ once.accounts)
settled_once_example =
    settled_once (at paid_db) (at once) (at twice) (result 1 1 1 (pos 100) (2 ∷ []))
      (result 2 0 0 (pos 0) []) paid_db-IsIssued first_batch second_batch
