-- ===== src/Store/Posting/Commit.antt =====
-- What a successful postEntryTx has read, computed and written.
use bytedance_double_entry_l.Prelude.{
  ℕ, suc, ◌≡◌, sym, ap, subst, ◌∙◌, Option, none, some, List, [], ◌∷◌, ◌++◌, map, append_assoc,
  append-nil, some_inj, Bool-cases, inl, inr,
}
use bytedance_double_entry_l.Prelude.Int.{ℤ}
use bytedance_double_entry_l.Errors.{Result, ok, ok_inj, err-ne-ok}
use bytedance_double_entry_l.Money.Currency.{Minor}
use bytedance_double_entry_l.Ledger.Entry.{Leg, Entry, validate}
use bytedance_double_entry_l.Store.Schema.{Db, AccountRow, PostingRow}
use bytedance_double_entry_l.Store.Session.{Session, Tx, exec, pure, lift, ◌>>=◌, ◌>>◌}
use bytedance_double_entry_l.Store.Session.Inversion.{
  >>=-ok, lift-ok, query_then-ok, query-ok, exec-ok, fst_eq, snd_eq,
}
use bytedance_double_entry_l.Store.Posting.{
  PostResult, Guard, distinct_sorted_account_ids, locked_rows, lock_accounts, leg_deltas,
  new_balances, txn_row, insert_txn, posting_row, insert_posting, insert_postings, with_balance,
  update_balance, update_balances, run_guard, ref_exists, write_entry, post_locked, post_entry_tx,
}

-- the rows that the legs become, numbered from the sequence
abbrev pub posting_rows : ℕ → ℕ → List Leg → List PostingRow
posting_rows i txn_id [] = []
posting_rows i txn_id (l ∷ legs) = posting_row i txn_id l ∷ posting_rows (suc i) txn_id legs

-- the accounts after the UPDATE of each new balance
abbrev pub set_balances : List (ℕ × Minor) → List AccountRow → List AccountRow
set_balances [] accounts = accounts
set_balances ((i, b) ∷ balances) accounts = set_balances balances (map (with_balance i b) accounts)

abbrev pub legs_count : ℕ → List Leg → ℕ
legs_count i [] = i
legs_count i (l ∷ legs) = legs_count (suc i) legs

abbrev pub post_rows : Entry → List (ℕ × Minor) → Db → Db
post_rows e balances db = record db {
  accounts = set_balances balances db.accounts;
  transactions = db.transactions ++ txn_row db.txn_seq e ∷ [];
  postings = db.postings ++ posting_rows db.posting_seq db.txn_seq e.legs;
  txn_seq = suc db.txn_seq;
  posting_seq = legs_count db.posting_seq e.legs;
}

pub record Posted (e : Entry) (guard : Option Guard) (db : Db) (r : PostResult) (db' : Db)
    : Type 0 where
  pub locked : List AccountRow
  pub deltas : List (ℕ × ℤ)
  pub valid : validate e ≡ ok tt
  pub locking : locked_rows (distinct_sorted_account_ids e.legs) db ≡ ok locked
  pub guarded : (g : Guard) → guard ≡ some g → g db ≡ ok tt
  pub changing : leg_deltas e.legs locked [] ≡ ok deltas
  pub balancing : new_balances locked deltas ≡ ok r.balances
  pub numbered : r.txn_id ≡ db.txn_seq
  pub written : db' ≡ post_rows e r.balances db

abbrev add_postings : ℕ → List Leg → Db → Db
add_postings t legs db = record db {
  postings = db.postings ++ posting_rows db.posting_seq t legs;
  posting_seq = legs_count db.posting_seq legs;
}

insert_postings-ok :
    (t : ℕ) (legs : List Leg) (s : Session) {u : Unit {0}} {s' : Session}
    → insert_postings t legs s ≡ (ok u, s')
    → s'.db ≡ add_postings t legs s.db
unfolding insert_postings insert_posting ◌>>◌
insert_postings-ok t [] s h = sym (ap Session.db (snd_eq h)) ∙ rw append-nil
insert_postings-ok t (l ∷ legs) s h =
    let (done, s₁, first, rest) =
      >>=-ok (exec (insert_posting t l)) (λ _. insert_postings t legs) s h in
    insert_postings-ok t legs s₁ rest
    ∙ ap (add_postings t legs)
        (sym (ap (λ (p : Result (Unit {0}) × Db). p.1) (exec-ok (insert_posting t l) s first)))
    ∙ rw append_assoc

abbrev with_balances : List (ℕ × Minor) → Db → Db
with_balances balances db = record db { accounts = set_balances balances db.accounts }

update_balances-ok :
    (balances : List (ℕ × Minor)) (s : Session) {u : Unit {0}} {s' : Session}
    → update_balances balances s ≡ (ok u, s')
    → s'.db ≡ with_balances balances s.db
unfolding update_balances update_balance ◌>>◌
update_balances-ok [] s h = sym (ap Session.db (snd_eq h))
update_balances-ok ((i, b) ∷ balances) s h =
    let (done, s₁, first, rest) =
      >>=-ok (exec (update_balance i b)) (λ _. update_balances balances) s h in
    update_balances-ok balances s₁ rest
    ∙ ap (with_balances balances)
        (sym (ap (λ (p : Result (Unit {0}) × Db). p.1) (exec-ok (update_balance i b) s first)))

run_guard-ok :
    (guard : Option Guard) (s : Session) {u : Unit {0}} {s' : Session}
    → run_guard guard s ≡ (ok u, s')
    → (s'.db ≡ s.db) × ((g : Guard) → guard ≡ some g → g s.db ≡ ok tt)
run_guard-ok none s h = (sym (ap Session.db (snd_eq h)), λ g e. cc)
run_guard-ok (some g₀) s h =
    let (passed, same) = query-ok g₀ s h in
    (same, λ g e. subst (λ k. k s.db ≡ ok tt) (some_inj e) passed)

abbrev with_header : Entry → Db → Db
with_header e db = record db {
  transactions = db.transactions ++ txn_row db.txn_seq e ∷ [];
  txn_seq = suc db.txn_seq;
}

insert_txn-ok :
    (e : Entry) (db : Db) {t : ℕ} {db' : Db}
    → insert_txn e db ≡ (ok t, db')
    → (t ≡ db.txn_seq) × (db' ≡ with_header e db)
unfolding insert_txn
insert_txn-ok e db h = elim (Bool-cases (ref_exists e.ref_txn_id db)) [
  | inl there ↦
      let k = rw there at h in
      (sym (ok_inj (ap (λ (p : Result ℕ × Db). p.0) k)), sym (ap (λ (p : Result ℕ × Db). p.1) k))
  | inr dangling ↦ absurd (err-ne-ok (ap (λ (p : Result ℕ × Db). p.0) (rw dangling at h)))
]

write_entry-ok :
    (e : Entry) (balances : List (ℕ × Minor)) (s : Session) {r : PostResult} {s' : Session}
    → write_entry e balances s ≡ (ok r, s')
    → (r ≡ record { txn_id = s.db.txn_seq; balances = balances })
      × (s'.db ≡ post_rows e balances s.db)
unfolding write_entry ◌>>◌
write_entry-ok e balances s h =
    let result : ℕ → Tx PostResult = λ t. pure (record { txn_id = t; balances = balances }) in
    let update : ℕ → Tx PostResult = λ t. update_balances balances >> result t in
    let (t, s₁, header, h₁) =
      >>=-ok (exec (insert_txn e)) (λ t. insert_postings t e.legs >> update t) s h in
    let (_, s₂, legs, h₂) = >>=-ok (insert_postings t e.legs) (λ _. update t) s₁ h₁ in
    let (_, s₃, updates, h₃) = >>=-ok (update_balances balances) (λ _. result t) s₂ h₂ in
    let (numbered, inserted) = insert_txn-ok e s.db (exec-ok (insert_txn e) s header) in
    let written : ℕ → Db → Db = λ t db. with_balances balances (add_postings t e.legs db) in
    (
      sym (ok_inj (fst_eq h₃)) ∙ ap (λ t. record { txn_id = t; balances = balances }) numbered,
      sym (ap Session.db (snd_eq h₃))
          ∙ update_balances-ok balances s₂ updates
          ∙ ap (with_balances balances) (insert_postings-ok t e.legs s₁ legs)
          ∙ ap (written t) inserted
          ∙ ap (λ t. written t (with_header e s.db)) numbered,
    )

-- A successful postEntryTx has validated the entry, locked exactly the rows of its accounts, passed
-- the guard on the rows it began with, computed the new balances from the locked rows, and written
-- the header, the legs and those balances, and nothing else.
pub post_entry_tx-Posted :
    (e : Entry) (guard : Option Guard) (s : Session) {r : PostResult} {s' : Session}
    → post_entry_tx e guard s ≡ (ok r, s')
    → Posted e guard s.db r s'.db
unfolding post_entry_tx post_locked lock_accounts ◌>>◌
post_entry_tx-Posted e guard s {r} {s'} h =
    let ids = distinct_sorted_account_ids e.legs in
    let (_, valid, h₁) =
      lift-ok (validate e) (λ _. lock_accounts ids >>= λ a. run_guard guard >> post_locked e a) s
        h in
    let (locked, s₁, lock, same₁, h₂) =
      query_then-ok (locked_rows ids) (λ a. run_guard guard >> post_locked e a) s h₁ in
    let (_, s₂, check, h₃) = >>=-ok (run_guard guard) (λ _. post_locked e locked) s₁ h₂ in
    let (deltas, change, h₄) =
      lift-ok (leg_deltas e.legs locked []) (λ d. lift (new_balances locked d) >>= write_entry e) s₂
        h₃ in
    let (balances, balance, h₅) = lift-ok (new_balances locked deltas) (write_entry e) s₂ h₄ in
    let (result, written) = write_entry-ok e balances s₂ h₅ in
    let (same₂, guarded) = run_guard-ok guard s₁ check in
    let same : s₂.db ≡ s.db = same₂ ∙ same₁ in
    record {
      locked = locked;
      deltas = deltas;
      valid = valid;
      locking = lock;
      guarded = λ g is. ap g (sym same₁) ∙ guarded g is;
      changing = change;
      balancing = balance ∙ ap ok (sym (ap PostResult.balances result));
      numbered = ap PostResult.txn_id result ∙ ap Db.txn_seq same;
      written =
          written
          ∙ ap (post_rows e balances) same
          ∙ ap (λ b. post_rows e b s.db) (sym (ap PostResult.balances result));
    }
