-- ===== src/Store/Schema.antt =====
-- migrations/001_init.sql: the tables as lists of rows in insertion order, with the identity
-- sequence of each table. Ids start at 1 and are natural numbers; timestamps are left out.
use bytedance_double_entry_l.Prelude.{
  ℕ, String, Bool, Option, List, ◌≡◌, ◌≤◌, refl, sym, subst, arith, ◌∙◌, max,
}
use bytedance_double_entry_l.Prelude.Int.{ℤ}
use bytedance_double_entry_l.Money.Currency.{Currency, Minor}
use bytedance_double_entry_l.Ledger.Entry.{AccountKind, TxnKind}

pub record AccountRow : Type 0 where
  pub id : ℕ
  pub name : String
  pub currency : Currency
  pub kind : AccountKind
  pub allow_negative : Bool
  pub balance : Minor

pub record TxnRow : Type 0 where
  pub id : ℕ
  pub kind : TxnKind
  pub ref_txn_id : Option ℕ
  pub pending_settle : Bool
  pub settled : Bool
  pub settle_batch_id : Option ℕ
  pub memo : String

pub record PostingRow : Type 0 where
  pub id : ℕ
  pub txn_id : ℕ
  pub account_id : ℕ
  pub currency : Currency
  pub amount : Minor

-- A JSON value that the program stores or sends; `object` holds the fields in any order.
mutual
  pub data Json : Type 0 where
    null : Json
    bool : Bool → Json
    number : ℤ → Json
    text : String → Json
    object : Fields → Json

  pub data Fields : Type 0 where
    end : Fields
    field : String → Json → Fields → Fields

pub data KeyStatus : Type 0 where
  in_progress completed : KeyStatus

pub record KeyRow : Type 0 where
  pub key : String
  pub request_hash : String
  pub txn_id : Option ℕ
  pub response : Json
  pub status : KeyStatus

pub record BatchRow : Type 0 where
  pub id : ℕ
  pub item_count : ℕ
  pub net_total : ℤ

pub record Db : Type 0 where
  pub accounts : List AccountRow
  pub transactions : List TxnRow
  pub postings : List PostingRow
  pub idempotency_keys : List KeyRow
  pub settlement_batches : List BatchRow
  pub account_seq : ℕ
  pub txn_seq : ℕ
  pub posting_seq : ℕ
  pub batch_seq : ℕ

-- The rows that a rollback brings back. Sequences are not rolled back: they never give out an id
-- again.
unfoldable pub rollback : Db → Db → Db
rollback before after = record before {
  account_seq = max before.account_seq after.account_seq;
  txn_seq = max before.txn_seq after.txn_seq;
  posting_seq = max before.posting_seq after.posting_seq;
  batch_seq = max before.batch_seq after.batch_seq;
}

-- The two hold the same rows, and the second has used up no fewer ids.
pub record SameRows (a b : Db) : Type 0 where
  pub accounts : b.accounts ≡ a.accounts
  pub transactions : b.transactions ≡ a.transactions
  pub postings : b.postings ≡ a.postings
  pub idempotency_keys : b.idempotency_keys ≡ a.idempotency_keys
  pub settlement_batches : b.settlement_batches ≡ a.settlement_batches
  pub account_seq : a.account_seq ≤ b.account_seq
  pub txn_seq : a.txn_seq ≤ b.txn_seq
  pub posting_seq : a.posting_seq ≤ b.posting_seq
  pub batch_seq : a.batch_seq ≤ b.batch_seq

pub SameRows-refl : (a : Db) → SameRows a a
SameRows-refl a = record {
  accounts = refl;
  transactions = refl;
  postings = refl;
  idempotency_keys = refl;
  settlement_batches = refl;
  account_seq = omega arith;
  txn_seq = omega arith;
  posting_seq = omega arith;
  batch_seq = omega arith;
}

pub SameRows-trans : {a b c : Db} → SameRows a b → SameRows b c → SameRows a c
SameRows-trans h k = record {
  accounts = k.accounts ∙ h.accounts;
  transactions = k.transactions ∙ h.transactions;
  postings = k.postings ∙ h.postings;
  idempotency_keys = k.idempotency_keys ∙ h.idempotency_keys;
  settlement_batches = k.settlement_batches ∙ h.settlement_batches;
  account_seq = omega arith;
  txn_seq = omega arith;
  posting_seq = omega arith;
  batch_seq = omega arith;
}

pub rollback-SameRows : (a b : Db) → SameRows a (rollback a b)
unfolding rollback
rollback-SameRows a b = record {
  accounts = refl;
  transactions = refl;
  postings = refl;
  idempotency_keys = refl;
  settlement_batches = refl;
  account_seq = omega arith;
  txn_seq = omega arith;
  posting_seq = omega arith;
  batch_seq = omega arith;
}

pub same_db : {a b : Db} → b ≡ a → SameRows a b
same_db {a} e = subst (SameRows a) (sym e) (SameRows-refl a)
