-- ===== src/Tests/Fixtures.antt =====
-- A small ledger: a world account, a merchant, and requests to the service.
use bytedance_double_entry_l.Prelude.{
  ◌≡◌, refl, subst, ℕ, String, Bool, true, false, Option, none, some, List, [], ◌∷◌, All, arith,
}
use bytedance_double_entry_l.Prelude.Int.{◌+ℤ◌, ℤ, pos, negsuc}
use bytedance_double_entry_l.Ledger.Entry.{
  Entry, Leg, external, merchant, AccountKind, TxnKind, transfer as transfer_kind,
  payment as payment_kind, refund as refund_kind,
}
use bytedance_double_entry_l.Store.Schema.{
  Db, Json, object, field, number, bool, end, KeyRow, PostingRow, TxnRow, AccountRow, completed,
}
use bytedance_double_entry_l.Settle.Clean.{HasSizedSums}
use bytedance_double_entry_l.Store.Session.{Session}
use bytedance_double_entry_l.Store.Books.Sound.{IsSound, empty_db, empty_db-IsSound}
use bytedance_double_entry_l.Ops.{Request, transfer_req, refund_req, fx_req, leg}
use bytedance_double_entry_l.Ops.Sequence.{
  Call, open_account, provision, settle, pay, give_back, IsSized, run_calls, run_calls-IsSound,
}

-- a stand-in for the hash, which tells the kinds of request apart
abbrev pub tag : Request → String
tag (transfer_req kind from to amount cur) = kind
tag (refund_req kind i amount) = kind
tag (fx_req kind from to amount num den) = kind

abbrev pub start : Session
start = record { db = empty_db; faults = [] }

abbrev pub demo_calls : List Call
demo_calls =
    open_account "world:USD" "USD" external true
    ∷ open_account "shop" "USD" merchant false
    ∷ pay "p1" 1 2 (pos 100) "USD"
    ∷ give_back "r1" 1 (pos 30)
    ∷ []

-- a merchant is paid 100, of which 30 are refunded, and the rest is settled
abbrev pub batch_calls : List Call
batch_calls =
    provision ("USD" ∷ [])
    ∷ open_account "shop" "USD" merchant false
    ∷ pay "p1" 1 4 (pos 100) "USD"
    ∷ give_back "r1" 1 (pos 30)
    ∷ settle
    ∷ []

pub batch_calls-IsSized : All IsSized batch_calls
batch_calls-IsSized =
    (tt, (tt, ((omega arith, omega arith), ((omega arith, omega arith), (tt, tt)))))

pub demo_calls-IsSized : All IsSized demo_calls
demo_calls-IsSized = (tt, (tt, ((omega arith, omega arith), ((omega arith, omega arith), tt))))

-- the response that is stored for a transaction
abbrev pub response_of : ℕ → Json
response_of t = object (field "txn_id" (number (pos t)) (field "replayed" (bool false) end))

abbrev pub stored_key : String → String → ℕ → KeyRow
stored_key key hash t = record {
  key = key;
  request_hash = hash;
  txn_id = some t;
  response = response_of t;
  status = completed;
}

abbrev pub posting : ℕ → ℕ → ℕ → ℤ → PostingRow
posting i t a z = record { id = i; txn_id = t; account_id = a; currency = "USD"; amount = z }

abbrev pub txn : ℕ → TxnKind → Option ℕ → Bool → String → TxnRow
txn i kind ref pending memo = record {
  id = i;
  kind = kind;
  ref_txn_id = ref;
  pending_settle = pending;
  settled = false;
  settle_batch_id = none;
  memo = memo;
}

abbrev pub account : ℕ → String → AccountKind → Bool → ℤ → AccountRow
account i name kind allow b = record {
  id = i;
  name = name;
  currency = "USD";
  kind = kind;
  allow_negative = allow;
  balance = b;
}

-- what the four calls leave
abbrev pub demo_db : Db
demo_db = record {
  accounts =
      account 1 "world:USD" external true (negsuc 69)
      ∷ account 2 "shop" merchant false (pos 70)
      ∷ [];
  transactions =
      txn 1 payment_kind none true "payment" ∷ txn 2 refund_kind (some 1) false "refund" ∷ [];
  postings =
      posting 1 1 1 (negsuc 99)
      ∷ posting 2 1 2 (pos 100)
      ∷ posting 3 2 2 (negsuc 29)
      ∷ posting 4 2 1 (pos 30)
      ∷ [];
  idempotency_keys = stored_key "p1" "payment" 1 ∷ stored_key "r1" "refund" 2 ∷ [];
  settlement_batches = [];
  account_seq = 3;
  txn_seq = 3;
  posting_seq = 5;
  batch_seq = 1;
}

abbrev pub demo : Session
demo = record { db = demo_db; faults = [] }

demo_calls-db : (run_calls tag demo_calls start).db ≡ demo_db
unfolding bytedance_double_entry_l.Prelude.Word.word bytedance_double_entry_l.Prelude.Word.signed
    bytedance_double_entry_l.Prelude.Word.wrap64 bytedance_double_entry_l.Prelude.Word.add64
    bytedance_double_entry_l.Prelude.Word.neg64 bytedance_double_entry_l.Prelude.Word.mul64
    bytedance_double_entry_l.Prelude.Int.◌+ℤ◌ bytedance_double_entry_l.Prelude.Int.◌-ℤ◌
    bytedance_double_entry_l.Prelude.Int.◌*ℤ◌ bytedance_double_entry_l.Prelude.Int.neg
    bytedance_double_entry_l.Money.Currency.find_decimals
    bytedance_double_entry_l.Money.Currency.is_supported
    bytedance_double_entry_l.Money.Currency.decimals
    bytedance_double_entry_l.Money.Currency.scale_loop bytedance_double_entry_l.Money.Currency.scale
    bytedance_double_entry_l.Ledger.Entry.sum_legs bytedance_double_entry_l.Ledger.Entry.all_zero
    bytedance_double_entry_l.Ledger.Entry.validate bytedance_double_entry_l.Store.Schema.rollback
    bytedance_double_entry_l.Store.Session.next_fault bytedance_double_entry_l.Store.Session.query
    bytedance_double_entry_l.Store.Session.exec bytedance_double_entry_l.Store.Session.auto_exec
    bytedance_double_entry_l.Store.Session.◌>>=◌ bytedance_double_entry_l.Store.Session.◌>>◌
    bytedance_double_entry_l.Store.Session.is_retryable
    bytedance_double_entry_l.Store.Session.pg_fault
    bytedance_double_entry_l.Store.Session.retry_or_return
    bytedance_double_entry_l.Store.Session.commit bytedance_double_entry_l.Store.Session.attempt
    bytedance_double_entry_l.Store.Session.attempts bytedance_double_entry_l.Store.Session.run_in_tx
    bytedance_double_entry_l.Store.Accounts.insert_account
    bytedance_double_entry_l.Store.Accounts.create_account
    bytedance_double_entry_l.Store.Accounts.insert_if_absent
    bytedance_double_entry_l.Store.Accounts.scan_account
    bytedance_double_entry_l.Store.Accounts.get_account
    bytedance_double_entry_l.Store.Accounts.get_account_by_name
    bytedance_double_entry_l.Store.Accounts.ensure_account
    bytedance_double_entry_l.Store.Accounts.join_lines
    bytedance_double_entry_l.Store.Accounts.ledger_limit
    bytedance_double_entry_l.Store.Accounts.account_lines
    bytedance_double_entry_l.Store.Accounts.account_ledger
    bytedance_double_entry_l.Store.Posting.distinct_ids
    bytedance_double_entry_l.Store.Posting.distinct_sorted_account_ids
    bytedance_double_entry_l.Store.Posting.locked_rows
    bytedance_double_entry_l.Store.Posting.lock_accounts
    bytedance_double_entry_l.Store.Posting.leg_deltas
    bytedance_double_entry_l.Store.Posting.new_balances
    bytedance_double_entry_l.Store.Posting.insert_txn
    bytedance_double_entry_l.Store.Posting.insert_posting
    bytedance_double_entry_l.Store.Posting.insert_postings
    bytedance_double_entry_l.Store.Posting.update_balance
    bytedance_double_entry_l.Store.Posting.update_balances
    bytedance_double_entry_l.Store.Posting.write_entry
    bytedance_double_entry_l.Store.Posting.post_locked
    bytedance_double_entry_l.Store.Posting.post_entry_tx
    bytedance_double_entry_l.Store.Posting.post_entry_guarded
    bytedance_double_entry_l.Store.Posting.post_entry
    bytedance_double_entry_l.Store.Payments.payment_kind
    bytedance_double_entry_l.Store.Payments.scan_leg
    bytedance_double_entry_l.Store.Payments.scan_legs
    bytedance_double_entry_l.Store.Payments.checked_legs
    bytedance_double_entry_l.Store.Payments.payment_rows
    bytedance_double_entry_l.Store.Payments.get_payment_legs
    bytedance_double_entry_l.Store.Payments.scan_int64
    bytedance_double_entry_l.Store.Payments.refunded
    bytedance_double_entry_l.Store.Payments.refunded_so_far
    bytedance_double_entry_l.Store.Idempotency.set_field
    bytedance_double_entry_l.Store.Idempotency.bind_txn_id
    bytedance_double_entry_l.Store.Idempotency.claim_key
    bytedance_double_entry_l.Store.Idempotency.finalize_key
    bytedance_double_entry_l.Store.Idempotency.read_replay
    bytedance_double_entry_l.Store.Idempotency.post_owned
    bytedance_double_entry_l.Store.Idempotency.idempotent_tx
    bytedance_double_entry_l.Store.Idempotency.post_entry_idempotent_guarded
    bytedance_double_entry_l.Store.Idempotency.post_entry_idempotent
    bytedance_double_entry_l.Ops.transfer_entry bytedance_double_entry_l.Ops.payment_entry
    bytedance_double_entry_l.Ops.refund_entry bytedance_double_entry_l.Ops.refund_guard
    bytedance_double_entry_l.Ops.post_idem bytedance_double_entry_l.Ops.transfer
    bytedance_double_entry_l.Ops.payment bytedance_double_entry_l.Ops.post_refund
    bytedance_double_entry_l.Ops.refund bytedance_double_entry_l.Ops.Sequence.run_call
    bytedance_double_entry_l.Ops.Sequence.run_calls
demo_calls-db = refl

pub demo_db-IsSound : IsSound demo_db
demo_db-IsSound =
    subst IsSound demo_calls-db
      (run_calls-IsSound tag demo_calls start demo_calls-IsSized empty_db-IsSound)

pub demo_db-HasSizedSums : HasSizedSums demo_db
unfolding ◌+ℤ◌
demo_db-HasSizedSums = ((omega arith, omega arith), ((omega arith, omega arith), tt))
