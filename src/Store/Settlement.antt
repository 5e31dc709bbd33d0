-- ===== src/Store/Settlement.antt =====
-- internal/store/settlement.go: RunSettlement. The rows of a query without ORDER BY, and of a Go map,
-- stand in the order of their first occurrence.
pub mod Books
pub mod Once
pub mod Paid
pub mod Settles
use bytedance_double_entry_l.Prelude.{
  ℕ, suc, String, str_append, Bool, true, false, not, ◌&&◌, Option, none, some, List, [], ◌∷◌, ◌++◌,
  length, map, where_rows, find_row, any_row, total, ◌==◌, if◌then◌else◌, str_eq,
}
use bytedance_double_entry_l.Prelude.Sort.{sort_by}
use bytedance_double_entry_l.Prelude.Int.{ℤ, pos, neg, ◌-ℤ◌, leb_ℤ, ltb_ℤ}
use bytedance_double_entry_l.Prelude.Word.{add64, neg64}
use bytedance_double_entry_l.Prelude.GoMap.{string_eq}
use bytedance_double_entry_l.Errors.{Result, ok, err, no_rows}
use bytedance_double_entry_l.Money.Currency.{Currency, Minor}
use bytedance_double_entry_l.Ledger.Entry.{Entry, settlement}
use bytedance_double_entry_l.Store.Schema.{Db, AccountRow, TxnRow, PostingRow, BatchRow}
use bytedance_double_entry_l.Store.Session.{Tx, query, exec, pure, ◌>>=◌, ◌>>◌, run_in_tx}
use bytedance_double_entry_l.Store.Posting.{PostResult, mem_id, lock_accounts, post_entry_tx}
use bytedance_double_entry_l.Store.Payments.{is_payment, refund_of}
use bytedance_double_entry_l.Store.Queries.{scan_all, distinct_keys}

pub record SettlementResult : Type 0 where
  pub batch_id : ℕ
  pub item_count : ℕ
  pub merchant_n : ℕ
  pub net_total : ℤ
  pub payout_txns : List ℕ

unfoldable pub payout_account_name : Currency → String
payout_account_name c = str_append "payout:" c

-- a payment that waits for a batch
abbrev pub is_pending_txn : TxnRow → Bool
is_pending_txn t = is_payment t.kind && t.pending_settle && not t.settled

-- transactions t JOIN postings p ON p.txn_id = t.id AND p.amount > 0
unfoldable pub is_pending : Db → PostingRow → Bool
is_pending db p =
    ltb_ℤ (pos 0) p.amount
    && any_row (λ (t : TxnRow). (t.id == p.txn_id) && is_pending_txn t) db.transactions

-- the distinct pairs of a merchant and a currency, by merchant
unfoldable pub merchant_keys : List PostingRow → List (ℕ × Currency) → List (ℕ × Currency)
merchant_keys [] seen = seen
merchant_keys (p ∷ ps) seen = merchant_keys ps (
    if any_row (λ (k : ℕ × Currency). (k.0 == p.account_id) && str_eq k.1 p.currency) seen
    then seen
    else seen ++ (p.account_id, p.currency) ∷ [])

abbrev pub merchant_of : ℕ × Currency → ℕ
merchant_of k = k.0

abbrev currency_of : ℕ × Currency → Currency
currency_of k = k.1

unfoldable pub sorted_keys : List PostingRow → List (ℕ × Currency)
sorted_keys ps = sort_by merchant_of (merchant_keys ps [])

unfoldable pub candidate_merchants : Tx (List ℕ × List Currency)
candidate_merchants = query (λ db.
    let keys = sorted_keys (where_rows (is_pending db) db.postings) in
    ok (map merchant_of keys, distinct_keys (map currency_of keys) []))

abbrev id_of : Option AccountRow → Result ℕ
id_of none = err no_rows
id_of (some a) = ok a.id

unfoldable pub payout_account : Currency → Tx ℕ
payout_account c =
    query (λ db.
      id_of (find_row (λ (a : AccountRow). str_eq a.name (payout_account_name c)) db.accounts))

unfoldable pub payout_accounts : List Currency → Tx (List (Currency × ℕ))
payout_accounts [] = pure []
payout_accounts (c ∷ cs) = do i ← payout_account c; rest ← payout_accounts cs; pure ((c, i) ∷ rest)

unfoldable pub union_ids : List ℕ → List ℕ → List ℕ
union_ids [] ids = ids
union_ids (i ∷ more) ids = union_ids more (if mem_id i ids then ids else ids ++ i ∷ [])

abbrev pub account_of : Currency × ℕ → ℕ
account_of p = p.1

unfoldable pub union_sorted_ids : List ℕ → List (Currency × ℕ) → List ℕ
unfolding union_ids
union_sorted_ids merchants payouts =
    sort_by (λ i. i) (union_ids (map account_of payouts) (union_ids merchants []))

-- COALESCE(-SUM(pr.amount), 0) over the refunds of a payment
unfoldable pub refunds_total : Db → ℕ → ℤ
refunds_total db i = neg (
    total
      (λ (p : PostingRow).
        if any_row (λ (t : TxnRow). (t.id == p.txn_id) && refund_of i t) db.transactions
          && ltb_ℤ p.amount (pos 0)
        then p.amount
        else pos 0)
      db.postings)

-- SUM(pending.captured - COALESCE(refunds.refunded, 0)) for a merchant and a currency
unfoldable pub net_of : Db → List PostingRow → ℕ × Currency → ℤ
net_of db pending k =
    total
      (λ (p : PostingRow).
        if (p.account_id == k.0) && str_eq p.currency k.1
        then p.amount -ℤ refunds_total db p.txn_id
        else pos 0)
      pending

unfoldable pub locked_pending : List ℕ → Db → List PostingRow
locked_pending merchants db =
    where_rows (λ (p : PostingRow). is_pending db p && mem_id p.account_id merchants) db.postings

unfoldable pub net_rows : List ℕ → Db → List ((ℕ × Currency) × ℤ)
net_rows merchants db =
    let pending = locked_pending merchants db in
    map (λ k. (k, net_of db pending k)) (sorted_keys pending)

unfoldable pub pending_ids : List ℕ → Db → List ℕ
pending_ids merchants db = sort_by (λ i. i) (map PostingRow.txn_id (locked_pending merchants db))

abbrev pub is_none : List ℕ → Bool
is_none [] = true
is_none (i ∷ is) = false

unfoldable pub compute_nets_locked : List ℕ → Tx (List ((ℕ × Currency) × Minor) × List ℕ)
compute_nets_locked merchants = if is_none merchants then pure ([], []) else (do
  nets ← query (λ db. scan_all (net_rows merchants db))
  ids ← query (λ db. ok (pending_ids merchants db))
  pure (nets, ids))

abbrev pub new_batch : ℕ → BatchRow
new_batch i = record { id = i; item_count = 0; net_total = pos 0 }

unfoldable pub insert_batch : Db → Result ℕ × Db
insert_batch db = (
  ok db.batch_seq,
  record db {
    settlement_batches = db.settlement_batches ++ new_batch db.batch_seq ∷ [];
    batch_seq = suc db.batch_seq;
  },
)

-- `payouts[c]`, which is 0 at a missing key
unfoldable pub payout_of : Currency → List (Currency × ℕ) → ℕ
payout_of c [] = 0
payout_of c ((k, i) ∷ m) = if str_eq k c then i else payout_of c m

unfoldable pub payout_entry : ℕ → ℕ → Currency → Minor → Entry
payout_entry merchant payout c net = record {
  kind = settlement;
  memo = "settlement payout";
  ref_txn_id = none;
  legs =
      record { account_id = merchant; currency = c; amount = neg64 net }
      ∷ record { account_id = payout; currency = c; amount = net }
      ∷ [];
  pending_settle = false;
}

-- the loop over the nets, with payoutTxns and netTotal
unfoldable pub pay_nets :
    List (Currency × ℕ) → List ((ℕ × Currency) × Minor) → List ℕ → ℤ → Tx (List ℕ × ℤ)
pay_nets payouts [] txns sum = pure (txns, sum)
pay_nets payouts (((merchant, c), net) ∷ nets) txns sum =
    let skip = pay_nets payouts nets txns sum in
    let go_on : PostResult → Tx (List ℕ × ℤ) =
      λ r. pay_nets payouts nets (txns ++ r.txn_id ∷ []) (add64 sum net) in
    if leb_ℤ net (pos 0)
    then skip
    else post_entry_tx (payout_entry merchant (payout_of c payouts) c net) none >>= go_on

abbrev pub settle_txn : ℕ → List ℕ → TxnRow → TxnRow
settle_txn batch ids t =
    if mem_id t.id ids
    then record t { settled = true; pending_settle = false; settle_batch_id = some batch }
    else t

-- UPDATE transactions SET settled=true, pending_settle=false, settle_batch_id=$1
unfoldable pub mark_settled : ℕ → List ℕ → Db → Result (Unit {0}) × Db
mark_settled batch ids db =
    (ok tt, record db { transactions = map (settle_txn batch ids) db.transactions })

abbrev fill_batch : ℕ → ℕ → ℤ → BatchRow → BatchRow
fill_batch i count sum b = if b.id == i then record b { item_count = count; net_total = sum } else b

unfoldable pub finalize_batch : ℕ → ℕ → ℤ → Db → Result (Unit {0}) × Db
finalize_batch i count sum db =
    (ok tt, record db { settlement_batches = map (fill_batch i count sum) db.settlement_batches })

abbrev pub mark_all : ℕ → List ℕ → Tx (Unit {0})
mark_all batch ids = if is_none ids then pure tt else exec (mark_settled batch ids)

-- step 5
unfoldable pub pay_batch :
    List (Currency × ℕ) → List ((ℕ × Currency) × Minor) × List ℕ → Tx SettlementResult
pay_batch payouts (nets, ids) = do
  batch ← exec insert_batch
  paid ← pay_nets payouts nets [] (pos 0)
  mark_all batch ids
  exec (finalize_batch batch (length ids) paid.1)
  pure (record {
    batch_id = batch;
    item_count = length ids;
    merchant_n = length paid.0;
    net_total = paid.1;
    payout_txns = paid.0;
  })

-- steps 3 and 4
unfoldable pub settle_locked : List ℕ → List (Currency × ℕ) → Tx SettlementResult
settle_locked merchants payouts = do
  locked ← lock_accounts (union_sorted_ids merchants payouts)
  nets ← compute_nets_locked merchants
  pay_batch payouts nets

unfoldable pub settlement_tx : Tx SettlementResult
settlement_tx = do
  found ← candidate_merchants
  payouts ← payout_accounts found.1
  settle_locked found.0 payouts

unfoldable pub run_settlement : Tx SettlementResult
run_settlement = run_in_tx settlement_tx
