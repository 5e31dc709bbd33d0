-- ===== src/Store/Books/Sound.antt =====
-- What the store's operations keep of the books, whether they succeed, fail or lose the answer.
use bytedance_double_entry_l.Prelude.{ℕ, refl, String, Bool, Option, List, []}
use bytedance_double_entry_l.Prelude.Word.{wrap64}
use bytedance_double_entry_l.Money.Currency.{Currency}
use bytedance_double_entry_l.Ledger.Entry.{AccountKind, Entry}
use bytedance_double_entry_l.Store.Schema.{TxnRow, BatchRow, Db, KeyRow, SameRows}
use bytedance_double_entry_l.Store.Session.{Session}
use bytedance_double_entry_l.Store.Session.Atomic.{run_in_tx-keeps}
use bytedance_double_entry_l.Store.Posting.{PostResult, Guard, post_entry_tx, post_entry_guarded}
use bytedance_double_entry_l.Store.Posting.Commit.{Posted, post_entry_tx-Posted}
use bytedance_double_entry_l.Store.Books.{
  IsConsistent, IsConsistent-SameRows, IsExact, IsExact-SameRows,
}
use bytedance_double_entry_l.Store.Books.Post.{post-IsConsistent}
use bytedance_double_entry_l.Store.Books.Exact.{NetsToZero, post-IsExact}
use bytedance_double_entry_l.Store.Accounts.{add_account}
use bytedance_double_entry_l.Store.Accounts.Books.{add_account-IsConsistent, add_account-IsExact}
use bytedance_double_entry_l.Store.Books.Kept.{IsKept}
use bytedance_double_entry_l.Store.Settlement.{insert_batch, mark_settled, finalize_batch}

-- Consistent, and exact over the integers.
pub record IsSound (db : Db) : Type 0 where
  pub consistent : IsConsistent db
  pub exact : IsExact db

pub IsSound-SameRows : (a b : Db) → SameRows a b → IsSound a → IsSound b
IsSound-SameRows a b same h = record {
  consistent = IsConsistent-SameRows same h.consistent;
  exact = IsExact-SameRows same h.exact;
}

-- the books do not read the idempotency keys
pub with_keys-IsConsistent :
    (keys : List KeyRow) (db : Db)
    → IsConsistent db
    → IsConsistent (record db { idempotency_keys = keys })
with_keys-IsConsistent keys db h = record {
  keyed = h.keyed;
  fresh = h.fresh;
  placed = h.placed;
  derived = h.derived;
  covered = h.covered;
  conserved = h.conserved;
}

with_keys-IsSound :
    (keys : List KeyRow) (db : Db) → IsSound db → IsSound (record db { idempotency_keys = keys })
with_keys-IsSound keys db h = record {
  consistent = with_keys-IsConsistent keys db h.consistent;
  exact = record { by_txn = h.exact.by_txn; by_currency = h.exact.by_currency };
}

-- Whatever entry and guard PostEntryGuarded is called with and whatever fails, the books stay
-- consistent.
pub post_entry_guarded-IsConsistent :
    (e : Entry) (guard : Option Guard) (s : Session)
    → IsConsistent s.db
    → IsConsistent (post_entry_guarded e guard s).1.db
unfolding post_entry_guarded
post_entry_guarded-IsConsistent e guard s h =
    run_in_tx-keeps IsConsistent (post_entry_tx e guard) s (λ a b. IsConsistent-SameRows)
      (λ s₁ s₂ r run k. post-IsConsistent (post_entry_tx-Posted e guard s₁ run) k) h

module _ (e : Entry) (guard : Option Guard) (nets : NetsToZero e.legs) where
  pub post-IsSound :
      {db : Db} {r : PostResult} {db' : Db} → Posted e guard db r db' → IsSound db → IsSound db'
  post-IsSound p h = record {
    consistent = post-IsConsistent p h.consistent;
    exact = post-IsExact p h.exact nets;
  }

add_account-IsSound :
    (name : String) (cur : Currency) (kind : AccountKind) (allow : Bool) (db : Db)
    → IsSound db
    → IsSound (add_account name cur kind allow db)
add_account-IsSound name cur kind allow db h = record {
  consistent = add_account-IsConsistent name cur kind allow db h.consistent;
  exact = add_account-IsExact name cur kind allow db h.exact;
}

-- the statements of a batch touch no account and no posting
other_rows-IsSound :
    (transactions : List TxnRow) (batches : List BatchRow) (batch_seq : ℕ) (db : Db)
    → IsSound db
    → IsSound (record db {
      transactions = transactions;
      settlement_batches = batches;
      batch_seq = batch_seq;
    })
other_rows-IsSound transactions batches batch_seq db h = record {
  consistent = record {
    keyed = h.consistent.keyed;
    fresh = h.consistent.fresh;
    placed = h.consistent.placed;
    derived = h.consistent.derived;
    covered = h.consistent.covered;
    conserved = h.consistent.conserved;
  };
  exact = record { by_txn = h.exact.by_txn; by_currency = h.exact.by_currency };
}

pub IsSound-IsKept : IsKept IsSound
unfolding insert_batch mark_settled finalize_batch
IsSound-IsKept = record {
  rows = IsSound-SameRows;
  account = add_account-IsSound;
  post = λ e guard db r db' nets p h. post-IsSound e guard nets p h;
  with_keys = with_keys-IsSound;
  batch = λ db h. other_rows-IsSound db.transactions _ _ db h;
  settled = λ i ids db h. other_rows-IsSound _ db.settlement_batches db.batch_seq db h;
  finalized = λ i count sum db h. other_rows-IsSound db.transactions _ db.batch_seq db h;
}

abbrev pub empty_db : Db
empty_db = record {
  accounts = [];
  transactions = [];
  postings = [];
  idempotency_keys = [];
  settlement_batches = [];
  account_seq = 1;
  txn_seq = 1;
  posting_seq = 1;
  batch_seq = 1;
}

pub empty_db-IsSound : IsSound empty_db
unfolding wrap64
empty_db-IsSound = record {
  consistent = record {
    keyed = tt;
    fresh = tt;
    placed = tt;
    derived = tt;
    covered = tt;
    conserved = λ c. refl;
  };
  exact = record { by_txn = λ t c. refl; by_currency = λ c. refl };
}
