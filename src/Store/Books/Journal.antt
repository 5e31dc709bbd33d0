-- ===== src/Store/Books/Journal.antt =====
-- What is never taken back: the journal and what its rows are about.
use bytedance_double_entry_l.Prelude.{
  inr, inl, ◌==◌, Bool-cases, subst, ℕ, ◌≡◌, refl, sym, ap, ◌∙◌, String, Bool, Option, List, [],
  ◌∷◌, ◌++◌, map, append_assoc, append-nil,
}
use bytedance_double_entry_l.Money.Currency.{Currency, Minor}
use bytedance_double_entry_l.Ledger.Entry.{AccountKind, TxnKind, Entry}
use bytedance_double_entry_l.Store.Schema.{Db, AccountRow, TxnRow, SameRows}
use bytedance_double_entry_l.Store.Posting.{mem_id, PostResult, Guard, txn_row, with_balance}
use bytedance_double_entry_l.Store.Posting.Commit.{Posted, posting_rows, set_balances}
use bytedance_double_entry_l.Store.Accounts.{add_account, new_account}
use bytedance_double_entry_l.Store.Settlement.{
  settle_txn, insert_batch, mark_settled, finalize_batch,
}
use bytedance_double_entry_l.Store.Books.Exact.{NetsToZero}
use bytedance_double_entry_l.Store.Books.Kept.{IsKept}

-- the second list is the first with more at its end
pub record IsPrefix {ℓ} {A : Type ℓ} (xs ys : List A) : Type ℓ where
  pub added : List A
  pub is : ys ≡ xs ++ added

module _ {ℓ} {A : Type ℓ} where
  prefix_refl : (xs : List A) → IsPrefix xs xs
  prefix_refl xs = record { added = []; is = sym (append-nil xs) }

  prefix_more : (xs ys zs : List A) → IsPrefix xs ys → IsPrefix xs (ys ++ zs)
  prefix_more xs ys zs h = record {
    added = h.added ++ zs;
    is = ap (λ l. l ++ zs) h.is ∙ append_assoc xs h.added zs;
  }

  moved : {xs ys zs : List A} → IsPrefix xs ys → zs ≡ ys → IsPrefix xs zs
  moved {xs} h e = subst (IsPrefix xs) (sym e) h

-- the columns of a transaction that no statement updates
abbrev pub header : TxnRow → ℕ × TxnKind × Option ℕ × String
header t = (t.id, t.kind, t.ref_txn_id, t.memo)

-- the columns of an account that no statement updates
abbrev pub identity : AccountRow → ℕ × String × Currency × AccountKind × Bool
identity a = (a.id, a.name, a.currency, a.kind, a.allow_negative)

-- From the first rows to the second, postings, transactions and accounts were only added.
pub record Appended (before db : Db) : Type 0 where
  pub postings : IsPrefix before.postings db.postings
  pub transactions : IsPrefix (map header before.transactions) (map header db.transactions)
  pub accounts : IsPrefix (map identity before.accounts) (map identity db.accounts)

pub Appended-refl : (db : Db) → Appended db db
Appended-refl db = record {
  postings = prefix_refl _;
  transactions = prefix_refl _;
  accounts = prefix_refl _;
}

-- the UPDATEs of accounts and transactions leave those columns
identity-with_balance :
    (i : ℕ) (b : Minor) (a : AccountRow) → identity (with_balance i b a) ≡ identity a
identity-with_balance i b a = elim (Bool-cases (a.id == i)) [
  | inl there ↦ rw there refl
  | inr elsewhere ↦ rw elsewhere refl
]

header-settle_txn :
    (batch : ℕ) (ids : List ℕ) (t : TxnRow) → header (settle_txn batch ids t) ≡ header t
header-settle_txn batch ids t = elim (Bool-cases (mem_id t.id ids)) [
  | inl marked ↦ rw marked refl
  | inr left ↦ rw left refl
]

map_same {ℓ κ} :
    {A : Type ℓ} {B : Type κ} (g : A → B) (f : A → A) (xs : List A)
    → ((x : A) → g (f x) ≡ g x)
    → map g (map f xs) ≡ map g xs
map_same g f [] same = refl
map_same g f (x ∷ xs) same = rw (same x, map_same g f xs same) refl

map_more {ℓ κ} :
    {A : Type ℓ} {B : Type κ} (g : A → B) (xs ys : List A) → map g (xs ++ ys) ≡ map g xs ++ map g ys
map_more g [] ys = refl
map_more g (x ∷ xs) ys = rw (map_more g xs ys) refl

identity-set_balances :
    (balances : List (ℕ × Minor)) (rows : List AccountRow)
    → map identity (set_balances balances rows) ≡ map identity rows
identity-set_balances [] rows = refl
identity-set_balances ((i, b) ∷ balances) rows =
    identity-set_balances balances (map (with_balance i b) rows)
    ∙ map_same identity (with_balance i b) rows (identity-with_balance i b)

module _ (before : Db) where
  rows_kept : (a b : Db) → SameRows a b → Appended before a → Appended before b
  rows_kept a b same h = record {
    postings = moved h.postings same.postings;
    transactions = moved h.transactions (ap (map header) same.transactions);
    accounts = moved h.accounts (ap (map identity) same.accounts);
  }

  account_added :
      (name : String) (cur : Currency) (kind : AccountKind) (allow : Bool) (db : Db)
      → Appended before db
      → Appended before (add_account name cur kind allow db)
  account_added name cur kind allow db h = record {
    postings = h.postings;
    transactions = h.transactions;
    accounts =
        moved
          (prefix_more _ (map identity db.accounts)
            (map identity (new_account db.account_seq name cur kind allow ∷ [])) h.accounts)
          (map_more identity db.accounts (new_account db.account_seq name cur kind allow ∷ []));
  }

  entry_posted :
      (e : Entry) (guard : Option Guard) (db : Db) (r : PostResult) (db' : Db)
      → NetsToZero e.legs
      → Posted e guard db r db'
      → Appended before db
      → Appended before db'
  entry_posted e guard db r db' nets p h = subst (Appended before) (sym p.written) (record {
    postings = prefix_more _ db.postings (posting_rows db.posting_seq db.txn_seq e.legs) h.postings;
    transactions =
        moved
          (prefix_more _ (map header db.transactions) (map header (txn_row db.txn_seq e ∷ []))
            h.transactions)
          (map_more header db.transactions (txn_row db.txn_seq e ∷ []));
    accounts = moved h.accounts (identity-set_balances r.balances db.accounts);
  })

  pub Appended-IsKept : IsKept (Appended before)
  unfolding insert_batch mark_settled finalize_batch
  Appended-IsKept = record {
    rows = rows_kept;
    account = account_added;
    post = entry_posted;
    with_keys = λ keys db h. record {
      postings = h.postings;
      transactions = h.transactions;
      accounts = h.accounts;
    };
    batch = λ db h. record {
      postings = h.postings;
      transactions = h.transactions;
      accounts = h.accounts;
    };
    settled = λ i ids db h. record {
      postings = h.postings;
      transactions =
          moved h.transactions
            (map_same header (settle_txn i ids) db.transactions (header-settle_txn i ids));
      accounts = h.accounts;
    };
    finalized = λ i count sum db h. record {
      postings = h.postings;
      transactions = h.transactions;
      accounts = h.accounts;
    };
  }
