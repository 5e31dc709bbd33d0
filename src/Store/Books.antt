-- ===== src/Store/Books.antt =====
-- The invariants of the ledger (README.md, "The invariants"; migrations/001_init.sql): they are
-- statements about the rows that the application keeps between transactions.
pub mod Rows
pub mod Post
pub mod Exact
pub mod Kept
pub mod Journal
pub mod Credited
pub mod Sound
use bytedance_double_entry_l.Prelude.{
  ℕ, Bool, true, any_row, ◌≡◌, ◌<◌, false, All, All-imp, total, if◌then◌else◌, ◌==◌, str_eq, ◌&&◌,
  subst, sym, arith, List, [], ◌∷◌,
}
use bytedance_double_entry_l.Prelude.Int.{ℤ, pos, ◌≤ℤ◌}
use bytedance_double_entry_l.Prelude.Word.{wrap64}
use bytedance_double_entry_l.Money.Currency.{Currency}
use bytedance_double_entry_l.Store.Schema.{Db, AccountRow, PostingRow, SameRows}

-- the amount of a posting, if it is on the account, in the currency, or of the transaction
abbrev pub posted_to : ℕ → PostingRow → ℤ
posted_to i p = if p.account_id == i then p.amount else pos 0

abbrev pub posted_in : Currency → PostingRow → ℤ
posted_in c p = if str_eq p.currency c then p.amount else pos 0

abbrev pub posted_by : ℕ → Currency → PostingRow → ℤ
posted_by t c p = if (p.txn_id == t) && str_eq p.currency c then p.amount else pos 0

-- the sum of the postings on each account
abbrev pub book : Db → ℕ → ℤ
book db i = total (posted_to i) db.postings

-- `id` is a primary key.
abbrev pub IsKeyed : List AccountRow → Type 0
IsKeyed rows = All (λ (a : AccountRow). All (λ (b : AccountRow). a.id ≡ b.id → a ≡ b) rows) rows

abbrev pub IsDerived : List PostingRow → AccountRow → Type 0
IsDerived postings a = a.balance ≡ wrap64 (total (posted_to a.id) postings)

abbrev pub IsCovered : AccountRow → Type 0
IsCovered a = a.allow_negative ≡ false → pos 0 ≤ℤ a.balance

-- is this the account of the posting, in its currency
abbrev pub is_place : ℕ → Currency → AccountRow → Bool
is_place i c a = (a.id == i) && str_eq c a.currency

abbrev pub IsPlaced : List AccountRow → PostingRow → Type 0
IsPlaced rows p = any_row (is_place p.account_id p.currency) rows ≡ true

-- What holds of the rows whatever is posted, amounts that overflow included.
pub record IsConsistent (db : Db) : Type 0 where
  -- account ids are unique, and the sequence is past all of them
  pub keyed : IsKeyed db.accounts
  pub fresh : All (λ (a : AccountRow). a.id < db.account_seq) db.accounts
  -- a posting is on an account that exists, in the account's currency
  pub placed : All (IsPlaced db.accounts) db.postings
  -- a cached balance is the sum of the account's postings, as an int64
  pub derived : All (IsDerived db.postings) db.accounts
  -- an account that may not be negative is not
  pub covered : All IsCovered db.accounts
  -- in every currency the postings sum to zero, as an int64
  pub conserved : (c : Currency) → wrap64 (total (posted_in c) db.postings) ≡ pos 0

-- What holds beyond that, over the integers, if every entry nets to exactly zero.
pub record IsExact (db : Db) : Type 0 where
  pub by_txn : (t : ℕ) (c : Currency) → total (posted_by t c) db.postings ≡ pos 0
  pub by_currency : (c : Currency) → total (posted_in c) db.postings ≡ pos 0

pub IsConsistent-SameRows : {a b : Db} → SameRows a b → IsConsistent a → IsConsistent b
IsConsistent-SameRows {a} {b} same h = record {
  keyed = subst IsKeyed (sym same.accounts) h.keyed;
  fresh =
      subst (All (λ (r : AccountRow). r.id < b.account_seq)) (sym same.accounts)
        (All-imp (λ r lt. lt_le r.id lt) a.accounts h.fresh);
  placed = rw (same.accounts, same.postings) (h.placed);
  derived = rw (same.accounts, same.postings) (h.derived);
  covered = rw (same.accounts) (h.covered);
  conserved = λ c. rw (same.postings) (h.conserved c);
}
  where
    lt_le : (i : ℕ) → i < a.account_seq → i < b.account_seq
    lt_le i lt = omega (arith, same.account_seq)

pub IsExact-SameRows : {a b : Db} → SameRows a b → IsExact a → IsExact b
IsExact-SameRows same h = record {
  by_txn = λ t c. rw (same.postings) (h.by_txn t c);
  by_currency = λ c. rw (same.postings) (h.by_currency c);
}
