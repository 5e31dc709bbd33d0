-- ===== src/Store/Accounts/Books.antt =====
-- internal/store/accounts.go: the invariants of the books when an account is created.
use bytedance_double_entry_l.Prelude.{
  ℕ, suc, ◌≡◌, ◌<◌, refl, sym, ap, subst, ◌∙◌, String, Bool, Bool-cases, true, false≢true, inl, inr,
  List, [], ◌∷◌, ◌++◌, All, All-imp, All-append, total, arith, str_eq, any_row, any_row-append,
  All-zip,
}
use bytedance_double_entry_l.Prelude.Int.{pos, zero_+ℤ}
use bytedance_double_entry_l.Prelude.Word.{wrap64, wrap64_id}
use bytedance_double_entry_l.Money.Currency.{Currency, is_supported}
use bytedance_double_entry_l.Ledger.Entry.{AccountKind}
use bytedance_double_entry_l.Store.Schema.{Db, AccountRow, PostingRow, SameRows}
use bytedance_double_entry_l.Store.Session.{Session, auto_exec}
use bytedance_double_entry_l.Store.Session.Keeps.{auto_exec-keeps, >>-keeps, db-query}
use bytedance_double_entry_l.Store.Books.{
  posted_to, IsKeyed, IsDerived, IsCovered, is_place, IsPlaced, IsConsistent, IsExact,
}
use bytedance_double_entry_l.Store.Accounts.{
  new_account, add_account, insert_account, insert_if_absent, create_account, get_account_by_name,
  ensure_account,
}

-- a posting is on an account id that the sequence has given out
abbrev IsOnly : AccountRow → AccountRow → Type 0
IsOnly a b = a.id ≡ b.id → a ≡ b

place_below :
    (i n : ℕ) (c : Currency) (rows : List AccountRow)
    → All (λ (a : AccountRow). a.id < n) rows
    → any_row (is_place i c) rows ≡ true
    → i < n
place_below i n c [] h k = absurd (false≢true k)
place_below i n c (a ∷ rows) h k = ground (arith, place_below i n c rows h.1)

not_posted :
    (n : ℕ) (rows : List AccountRow) (ps : List PostingRow)
    → All (λ (a : AccountRow). a.id < n) rows
    → All (IsPlaced rows) ps
    → total (posted_to n) ps ≡ pos 0
not_posted n rows [] h k = refl
not_posted n rows (p ∷ ps) h k =
    rw (elsewhere (place_below p.account_id n p.currency rows h k.0), not_posted n rows ps h k.1)
      (zero_+ℤ (pos 0))
  where
    elsewhere : p.account_id < n → posted_to n p ≡ pos 0
    elsewhere lt = ground arith

only_new :
    (n : ℕ) (new : AccountRow) (rows : List AccountRow)
    → new.id ≡ n
    → All (λ (a : AccountRow). a.id < n) rows
    → IsKeyed rows
    → IsKeyed (rows ++ new ∷ [])
only_new n new rows is h k =
    All-append (λ a. All (IsOnly a) (rows ++ new ∷ [])) rows (new ∷ [])
      (All-imp old rows
        (All-zip (λ (a : AccountRow). a.id < n) (λ a. All (IsOnly a) rows) rows h k))
      (All-append (IsOnly new) rows (new ∷ []) (All-imp differs rows h) ((λ same. refl), tt), tt)
  where
    differs : (a : AccountRow) → a.id < n → IsOnly new a
    differs a lt same = absurd (omega arith)

    old : (a : AccountRow) → (a.id < n) × All (IsOnly a) rows → All (IsOnly a) (rows ++ new ∷ [])
    old a (lt, only) =
        All-append (IsOnly a) rows (new ∷ []) only ((λ same. absurd (omega arith)), tt)

pub add_account-IsConsistent :
    (name : String) (cur : Currency) (kind : AccountKind) (allow : Bool) (db : Db)
    → IsConsistent db
    → IsConsistent (add_account name cur kind allow db)
add_account-IsConsistent name cur kind allow db h =
    let new = new_account db.account_seq name cur kind allow in
    record {
      keyed = only_new db.account_seq new db.accounts refl h.fresh h.keyed;
      fresh =
          All-append (λ (a : AccountRow). a.id < suc db.account_seq) db.accounts (new ∷ [])
            (All-imp (λ (a : AccountRow) (lt : a.id < db.account_seq). le_step lt) db.accounts
              h.fresh)
            (omega arith, tt);
      placed = All-imp (still_placed new) db.postings h.placed;
      derived = All-append (IsDerived db.postings) db.accounts (new ∷ []) h.derived (
        sym (
            ap wrap64 (not_posted db.account_seq db.accounts db.postings h.fresh h.placed)
            ∙ wrap64_id (pos 0) (omega arith)),
        tt,
      );
      covered = All-append IsCovered db.accounts (new ∷ []) h.covered ((λ flag. omega arith), tt);
      conserved = h.conserved;
    }
  where
    le_step : {i n : ℕ} → i < n → i < suc n
    le_step lt = omega arith

    still_placed :
        (new : AccountRow) (p : PostingRow)
        → IsPlaced db.accounts p
        → IsPlaced (db.accounts ++ new ∷ []) p
    still_placed new p found =
        any_row-append (is_place p.account_id p.currency) db.accounts (new ∷ []) ∙ rw found

pub add_account-IsExact :
    (name : String) (cur : Currency) (kind : AccountKind) (allow : Bool) (db : Db)
    → IsExact db
    → IsExact (add_account name cur kind allow db)
add_account-IsExact name cur kind allow db h = record {
  by_txn = h.by_txn;
  by_currency = h.by_currency;
}

pub bump : (db : Db) → SameRows db (record db { account_seq = suc db.account_seq })
bump db = record {
  accounts = refl;
  transactions = refl;
  postings = refl;
  idempotency_keys = refl;
  settlement_batches = refl;
  account_seq = omega arith;
  txn_seq = omega arith;
  posting_seq = omega arith;
  batch_seq = omega arith;
}

get_account_by_name-db : (name : String) (s : Session) → (get_account_by_name name s).1.db ≡ s.db
unfolding get_account_by_name
get_account_by_name-db name s = db-query _ s

-- An invariant that survives a used id and a new row is kept by the account operations, whether
-- they succeed or fail.
module _ {κ} (P : Db → Type κ) (same : (a b : Db) → SameRows a b → P a → P b)
    (added : (name : String) (cur : Currency) (kind : AccountKind) (allow : Bool) (db : Db)
      → P db
      → P (add_account name cur kind allow db)) where
  module _ (name : String) (cur : Currency) (kind : AccountKind) (allow : Bool) where
    insert_account-keeps : (db : Db) → P db → P (insert_account name cur kind allow db).1
    unfolding insert_account
    insert_account-keeps db h =
        elim (Bool-cases (any_row (λ (a : AccountRow). str_eq a.name name) db.accounts)) [
          | inl taken ↦ rw taken (same db _ (bump db) h)
          | inr free ↦ rw free (added name cur kind allow db h)
        ]

    insert_if_absent-keeps : (db : Db) → P db → P (insert_if_absent name cur kind allow db).1
    unfolding insert_if_absent
    insert_if_absent-keeps db h =
        elim (Bool-cases (any_row (λ (a : AccountRow). str_eq a.name name) db.accounts)) [
          | inl taken ↦ rw taken (same db _ (bump db) h)
          | inr free ↦ rw free (added name cur kind allow db h)
        ]

    pub create_account-keeps :
        (s : Session) → P s.db → P (create_account name cur kind allow s).1.db
    unfolding create_account
    create_account-keeps s h = elim (Bool-cases (str_eq name "")) [
      | inl unnamed ↦ rw unnamed h
      | inr named ↦ elim (Bool-cases (is_supported cur)) [
        | inl known ↦
            rw (named, known)
              (auto_exec-keeps P (insert_account name cur kind allow) s insert_account-keeps h)
        | inr unknown ↦ rw (named, unknown) h
      ]
    ]

    pub ensure_account-keeps :
        (s : Session) → P s.db → P (ensure_account name cur kind allow s).1.db
    unfolding ensure_account
    ensure_account-keeps s h = elim (Bool-cases (is_supported cur)) [
      | inl known ↦ rw known (
          >>-keeps P (auto_exec (insert_if_absent name cur kind allow)) (get_account_by_name name) s
            (auto_exec-keeps P (insert_if_absent name cur kind allow) s insert_if_absent-keeps h)
            (λ t k. subst P (sym (get_account_by_name-db name t)) k))
      | inr unknown ↦ rw unknown h
    ]
