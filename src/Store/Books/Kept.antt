-- ===== src/Store/Books/Kept.antt =====
-- What every operation keeps of the rows, if the statements of a posting, of a new account and of a
-- settlement batch keep it.
use bytedance_double_entry_l.Prelude.{subst, sym, String, Bool, Option, List, ℕ}
use bytedance_double_entry_l.Prelude.Int.{ℤ}
use bytedance_double_entry_l.Errors.{Result}
use bytedance_double_entry_l.Money.Currency.{Currency}
use bytedance_double_entry_l.Ledger.Entry.{AccountKind, Entry}
use bytedance_double_entry_l.Store.Schema.{Db, KeyRow, Json, SameRows}
use bytedance_double_entry_l.Store.Session.{Session}
use bytedance_double_entry_l.Store.Session.Atomic.{run_in_tx-keeps}
use bytedance_double_entry_l.Store.Posting.{PostResult, Guard, post_entry_tx, post_entry_guarded}
use bytedance_double_entry_l.Store.Posting.Commit.{Posted, post_entry_tx-Posted}
use bytedance_double_entry_l.Store.Books.Exact.{NetsToZero}
use bytedance_double_entry_l.Store.Accounts.{add_account, create_account, ensure_account}
use bytedance_double_entry_l.Store.Accounts.Books.{create_account-keeps, ensure_account-keeps}
use bytedance_double_entry_l.Store.Settlement.{insert_batch, mark_settled, finalize_batch}
use bytedance_double_entry_l.Store.Idempotency.{IdemResult, post_entry_idempotent_guarded}
use bytedance_double_entry_l.Store.Idempotency.Retry.{Called, kept, posted, call-Called}

pub record IsKept {κ} (P : Db → Type κ) : Type κ where
  pub rows : (a b : Db) → SameRows a b → P a → P b
  pub account :
      (name : String) (cur : Currency) (kind : AccountKind) (allow : Bool) (db : Db)
      → P db
      → P (add_account name cur kind allow db)
  pub post :
      (e : Entry) (guard : Option Guard) (db : Db) (r : PostResult) (db' : Db)
      → NetsToZero e.legs
      → Posted e guard db r db'
      → P db
      → P db'
  pub with_keys : (keys : List KeyRow) (db : Db) → P db → P (record db { idempotency_keys = keys })
  pub batch : (db : Db) → P db → P (insert_batch db).1
  pub settled : (i : ℕ) (ids : List ℕ) (db : Db) → P db → P (mark_settled i ids db).1
  pub finalized : (i count : ℕ) (sum : ℤ) (db : Db) → P db → P (finalize_batch i count sum db).1

module _ {κ} {P : Db → Type κ} (is_kept : IsKept P) where
  module _ (e : Entry) (guard : Option Guard) (nets : NetsToZero e.legs) where
    pub post_entry_guarded-kept : (s : Session) → P s.db → P (post_entry_guarded e guard s).1.db
    unfolding post_entry_guarded
    post_entry_guarded-kept s h =
        run_in_tx-keeps P (post_entry_tx e guard) s is_kept.rows
          (λ s₁ s₂ r run k.
            is_kept.post e guard s₁.db r s₂.db nets (post_entry_tx-Posted e guard s₁ run) k)
          h

    pub post_entry_idempotent_guarded-kept :
        (key hash : String) (response : Json) (s : Session)
        → P s.db
        → P (post_entry_idempotent_guarded key hash e response guard s).1.db
    post_entry_idempotent_guarded-kept key hash response s h =
        after (call-Called key hash e response guard s)
      where
        after :
            {r : Result IdemResult} {s' : Session}
            → Called key hash e response guard s r s'
            → P s'.db
        after (kept same) = is_kept.rows s.db _ same h
        after (posted db₁ x same o told) = subst P (sym o.written) (
            is_kept.with_keys _ o.mid (
              is_kept.post e guard _ _ o.mid nets o.posting
                (is_kept.with_keys _ db₁ (is_kept.rows s.db db₁ same h))))

  module _ (name : String) (cur : Currency) (kind : AccountKind) (allow : Bool) (s : Session)
      (h : P s.db) where
    pub create_account-kept : P (create_account name cur kind allow s).1.db
    create_account-kept =
        create_account-keeps P is_kept.rows is_kept.account name cur kind allow s h

    pub ensure_account-kept : P (ensure_account name cur kind allow s).1.db
    ensure_account-kept =
        ensure_account-keeps P is_kept.rows is_kept.account name cur kind allow s h
