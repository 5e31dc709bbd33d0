-- ===== src/Store/Posting.antt =====
-- internal/store/postings.go: the single write path, postEntryTx, and PostEntry.
pub mod Commit
pub mod Balances
use bytedance_double_entry_l.Prelude.{
  ℕ, suc, ◌+◌, String, Bool, true, false, not, ◌&&◌, Option, none, some, List, [], ◌∷◌, ◌++◌,
  length, map, where_rows, find_row, any_row, ◌==◌, if◌then◌else◌, str_eq,
}
use bytedance_double_entry_l.Prelude.Sort.{sort_by}
use bytedance_double_entry_l.Prelude.Int.{ℤ, pos, ltb_ℤ}
use bytedance_double_entry_l.Prelude.Word.{add64}
use bytedance_double_entry_l.Prelude.GoMap.{value_at, add_at, id_eq}
use bytedance_double_entry_l.Errors.{
  Result, ok, err, map_ok, account_not_found, insufficient_funds, currency_mismatch,
  foreign_key_violation,
}
use bytedance_double_entry_l.Money.Currency.{Minor}
use bytedance_double_entry_l.Ledger.Entry.{Leg, Entry, validate}
use bytedance_double_entry_l.Store.Schema.{Db, AccountRow, TxnRow, PostingRow}
use bytedance_double_entry_l.Store.Session.{Tx, query, exec, pure, lift, ◌>>=◌, ◌>>◌, run_in_tx}

pub record PostResult : Type 0 where
  pub txn_id : ℕ
  pub balances : List (ℕ × Minor)

-- A guard reads the database under the locks of the transaction and may refuse.
abbrev pub Guard : Type 0
Guard = Db → Result (Unit {0})

abbrev pub mem_id : ℕ → List ℕ → Bool
mem_id i ids = any_row (λ j. j == i) ids

-- the loop of distinctSortedAccountIDs; what it has `seen` is what `ids` holds
unfoldable pub distinct_ids : List Leg → List ℕ → List ℕ
distinct_ids [] ids = ids
distinct_ids (l ∷ legs) ids =
    distinct_ids legs (if mem_id l.account_id ids then ids else ids ++ l.account_id ∷ [])

unfoldable pub distinct_sorted_account_ids : List Leg → List ℕ
unfolding distinct_ids
distinct_sorted_account_ids legs = sort_by (λ i. i) (distinct_ids legs [])

-- WHERE id = ANY($1) ORDER BY id FOR UPDATE, and the count of the rows
unfoldable pub locked_rows : List ℕ → Db → Result (List AccountRow)
locked_rows ids db =
    let rows =
      sort_by AccountRow.id (where_rows (λ (a : AccountRow). mem_id a.id ids) db.accounts) in
    if length rows == length ids then ok rows else err account_not_found

unfoldable pub lock_accounts : List ℕ → Tx (List AccountRow)
lock_accounts ids = query (locked_rows ids)

-- step 3: currencies, and the change of each account
unfoldable pub leg_deltas : List Leg → List AccountRow → List (ℕ × ℤ) → Result (List (ℕ × ℤ))
leg_deltas [] accounts deltas = ok deltas
leg_deltas (l ∷ legs) accounts deltas =
    let rest = leg_deltas legs accounts (add_at l.account_id l.amount deltas) in
    elim (find_row (λ (a : AccountRow). a.id == l.account_id) accounts) [
      | none ↦ err account_not_found
      | some acc ↦ if str_eq l.currency acc.currency then rest else err currency_mismatch
    ]

-- step 4: the new balances, and the no-negative constraint on them
unfoldable pub new_balances : List AccountRow → List (ℕ × ℤ) → Result (List (ℕ × Minor))
new_balances [] deltas = ok []
new_balances (a ∷ accounts) deltas =
    let nb = add64 a.balance (value_at a.id deltas) in
    let rest = new_balances accounts deltas in
    if ltb_ℤ nb (pos 0) && not a.allow_negative
    then err insufficient_funds
    else map_ok (λ balances. (a.id, nb) ∷ balances) rest

abbrev pub txn_row : ℕ → Entry → TxnRow
txn_row i e = record {
  id = i;
  kind = e.kind;
  ref_txn_id = e.ref_txn_id;
  pending_settle = e.pending_settle;
  settled = false;
  settle_batch_id = none;
  memo = e.memo;
}

-- REFERENCES transactions(id)
abbrev pub ref_exists : Option ℕ → Db → Bool
ref_exists none db = true
ref_exists (some i) db = any_row (λ (t : TxnRow). t.id == i) db.transactions

-- step 5; a refused INSERT has used its id up all the same
unfoldable pub insert_txn : Entry → Db → Result ℕ × Db
insert_txn e db =
    if ref_exists e.ref_txn_id db
    then (
      ok db.txn_seq,
      record db {
        transactions = db.transactions ++ txn_row db.txn_seq e ∷ [];
        txn_seq = suc db.txn_seq;
      },
    )
    else (err foreign_key_violation, record db { txn_seq = suc db.txn_seq })

abbrev pub posting_row : ℕ → ℕ → Leg → PostingRow
posting_row i txn_id l = record {
  id = i;
  txn_id = txn_id;
  account_id = l.account_id;
  currency = l.currency;
  amount = l.amount;
}

-- step 6: one INSERT for each leg. The transaction and the account of a leg are there.
unfoldable pub insert_posting : ℕ → Leg → Db → Result (Unit {0}) × Db
insert_posting txn_id l db = (
  ok tt,
  record db {
    postings = db.postings ++ posting_row db.posting_seq txn_id l ∷ [];
    posting_seq = suc db.posting_seq;
  },
)

unfoldable pub insert_postings : ℕ → List Leg → Tx (Unit {0})
insert_postings txn_id [] = pure tt
insert_postings txn_id (l ∷ legs) = do exec (insert_posting txn_id l); insert_postings txn_id legs

abbrev pub with_balance : ℕ → Minor → AccountRow → AccountRow
with_balance i b a = if a.id == i then record a { balance = b } else a

-- UPDATE accounts SET balance=$1 WHERE id=$2
unfoldable pub update_balance : ℕ → Minor → Db → Result (Unit {0}) × Db
update_balance i b db = (ok tt, record db { accounts = map (with_balance i b) db.accounts })

unfoldable pub update_balances : List (ℕ × Minor) → Tx (Unit {0})
update_balances [] = pure tt
update_balances ((i, b) ∷ balances) = do exec (update_balance i b); update_balances balances

abbrev pub run_guard : Option Guard → Tx (Unit {0})
run_guard none = pure tt
run_guard (some g) = query g

-- steps 5 and 6
unfoldable pub write_entry : Entry → List (ℕ × Minor) → Tx PostResult
write_entry e balances = do
  txn_id ← exec (insert_txn e)
  insert_postings txn_id e.legs
  update_balances balances
  pure (record { txn_id = txn_id; balances = balances })

-- steps 3 to 6, on the locked accounts
unfoldable pub post_locked : Entry → List AccountRow → Tx PostResult
post_locked e accounts = do
  deltas ← lift (leg_deltas e.legs accounts [])
  balances ← lift (new_balances accounts deltas)
  write_entry e balances

unfoldable pub post_entry_tx : Entry → Option Guard → Tx PostResult
post_entry_tx e guard = do
  lift (validate e)
  accounts ← lock_accounts (distinct_sorted_account_ids e.legs)
  run_guard guard
  post_locked e accounts

unfoldable pub post_entry_guarded : Entry → Option Guard → Tx PostResult
post_entry_guarded e guard = run_in_tx (post_entry_tx e guard)

unfoldable pub post_entry : Entry → Tx PostResult
post_entry e = post_entry_guarded e none
