-- ===== src/Store/Books/Post.antt =====
-- internal/store/postings.go: the consistency of the books after a posting.
use bytedance_double_entry_l.Prelude.{
  ℕ, suc, ◌≡◌, ◌<◌, sym, ap, subst, ◌∙◌, Bool-cases, inl, inr, true, false, List, [], ◌∷◌, map, All,
  All-imp, All-zip, All-map, All-append, any_row-map, any_row-of_where_rows, where_rows,
  where_rows-All, any_row, Option, any_row-where_rows, total, total-append, arith, ◌==◌, ==_refl,
}
use bytedance_double_entry_l.Prelude.Sort.{sort_by-All, any_row-sort_by}
use bytedance_double_entry_l.Prelude.Int.{ℤ, pos, ◌+ℤ◌, ◌≤ℤ◌, zero_+ℤ, +ℤ_zero}
use bytedance_double_entry_l.Prelude.Word.{wrap64, add64, wrap64-+ℤ_left, wrap64-+ℤ_right}
use bytedance_double_entry_l.Prelude.GoMap.{value_at, id_eq}
use bytedance_double_entry_l.Money.Currency.{Currency, Minor}
use bytedance_double_entry_l.Ledger.Entry.{Leg, Entry}
use bytedance_double_entry_l.Ledger.Balance.{leg_in, validate_iff}
use bytedance_double_entry_l.Store.Schema.{Db, AccountRow, PostingRow}
use bytedance_double_entry_l.Store.Posting.{PostResult, Guard, mem_id, distinct_sorted_account_ids}
use bytedance_double_entry_l.Store.Posting.Commit.{posting_rows, Posted}
use bytedance_double_entry_l.Store.Posting.Balances.{
  leg_to, leg_deltas-total, entry_of, Covered, new_balances-ok, final_row, set_balances-map,
  id-final_row, flag-final_row, final_row-balance, unlocked_total, is_place_of, leg_deltas-placed,
  place-final_row,
}
use bytedance_double_entry_l.Store.Books.{
  posted_to, posted_in, IsKeyed, IsDerived, IsCovered, is_place, IsPlaced, IsConsistent,
}
use bytedance_double_entry_l.Store.Books.Rows.{
  posted_in-posting_rows, posted_to-posting_rows, locked_rows-ok, any_row-entries,
}

module _ {e : Entry} {guard : Option Guard} {db : Db} {r : PostResult} {db' : Db}
    (p : Posted e guard db r db') where
  pub posted_total :
      (i : ℕ)
      → total (posted_to i) db'.postings
        ≡ total (posted_to i) db.postings +ℤ total (leg_to i) e.legs
  posted_total i =
      ap (λ (d : Db). total (posted_to i) d.postings) p.written
      ∙ total-append (posted_to i) db.postings (posting_rows db.posting_seq db.txn_seq e.legs)
      ∙ ap (λ z. total (posted_to i) db.postings +ℤ z)
          (posted_to-posting_rows i db.posting_seq db.txn_seq e.legs)

module _ {e : Entry} {guard : Option Guard} {db : Db} {r : PostResult} {db' : Db}
    (p : Posted e guard db r db') (h : IsConsistent db) where
  pub accounts_after : db'.accounts ≡ map (final_row r.balances) db.accounts
  accounts_after = ap Db.accounts p.written ∙ set_balances-map r.balances db.accounts

  locked_All : (P : AccountRow → Type 0) → All P db.accounts → All P p.locked
  locked_All P all =
      subst (All P) (sym (locked_rows-ok _ db p.locking))
        (sort_by-All AccountRow.id P _ (where_rows-All P _ db.accounts all))

  entries : r.balances ≡ map (entry_of p.deltas) p.locked
  entries = (new_balances-ok p.locked p.deltas p.balancing).0

  -- the new balance of a locked row
  new_balance :
      (i : ℕ) (a : AccountRow)
      → IsDerived db.postings a
      → a.id ≡ i
      → add64 a.balance (value_at a.id p.deltas) ≡ wrap64 (total (posted_to i) db'.postings)
  unfolding add64
  new_balance i a d same =
      let T = total (posted_to i) db.postings in
      let v = value_at i p.deltas in
      let D = total (leg_to i) e.legs in
      let moved : wrap64 v ≡ wrap64 D =
        leg_deltas-total i e.legs p.locked [] p.changing ∙ ap wrap64 (zero_+ℤ D) in
      ap (λ (j : ℕ). wrap64 (a.balance +ℤ value_at j p.deltas)) same
      ∙ ap (λ b. wrap64 (b +ℤ v)) (d ∙ ap (λ j. wrap64 (total (posted_to j) db.postings)) same)
      ∙ wrap64-+ℤ_left T v
      ∙ sym (wrap64-+ℤ_right T v)
      ∙ ap (λ z. wrap64 (T +ℤ z)) moved
      ∙ wrap64-+ℤ_right T D
      ∙ ap wrap64 (sym (posted_total p i))

  All-entries :
      (P : ℕ × Minor → Type 0)
      → All (λ (a : AccountRow). P (entry_of p.deltas a)) p.locked
      → All P r.balances
  All-entries P all = subst (All P) (sym entries) (All-map P (entry_of p.deltas) p.locked all)

  abbrev IsLocked : AccountRow → Type 0
  IsLocked a = mem_id a.id (distinct_sorted_account_ids e.legs) ≡ true

  abbrev HasEntry : AccountRow → Type 0
  HasEntry a = IsLocked a → any_row (λ (q : ℕ × Minor). q.0 == a.id) r.balances ≡ true

  found_at :
      (a : AccountRow)
      → (IsLocked a
          → any_row
              (λ (b : AccountRow). b.id == a.id)
              (where_rows
                (λ (b : AccountRow). mem_id b.id (distinct_sorted_account_ids e.legs))
                db.accounts)
            ≡ true)
      → HasEntry a
  found_at a found locked =
      ap (any_row (λ (q : ℕ × Minor). q.0 == a.id)) entries
      ∙ any_row-entries a.id p.deltas p.locked
      ∙ ap (any_row (λ (b : AccountRow). b.id == a.id))
          (locked_rows-ok (distinct_sorted_account_ids e.legs) db p.locking)
      ∙ any_row-sort_by AccountRow.id (λ (b : AccountRow). b.id == a.id) _
      ∙ found locked

  found_entry : All HasEntry db.accounts
  found_entry = All-imp found_at db.accounts (
      any_row-where_rows (λ (a b : AccountRow). b.id == a.id)
        (λ (b : AccountRow). mem_id b.id (distinct_sorted_account_ids e.legs)) db.accounts
        (λ a. ==_refl a.id))

  -- what the new balance of every locked row with this id satisfies, and the old one if the account
  -- is not locked
  after :
      (R : ℤ → Type 0) (a : AccountRow)
      → All
          (λ (b : AccountRow). b.id ≡ a.id → R (add64 b.balance (value_at b.id p.deltas)))
          p.locked
      → (mem_id a.id (distinct_sorted_account_ids e.legs) ≡ true
          → any_row (λ (q : ℕ × Minor). q.0 == a.id) r.balances ≡ true)
      → (mem_id a.id (distinct_sorted_account_ids e.legs) ≡ false → R a.balance)
      → R (final_row r.balances a).balance
  after R a new found old =
      final_row-balance R r.balances a (All-entries (λ q. q.0 ≡ a.id → R q.1) new)
        (elim (Bool-cases (mem_id a.id (distinct_sorted_account_ids e.legs))) [
          | inl locked ↦ inr (found locked)
          | inr free ↦ inl (old free)
        ])

  IsDerived-at :
      (a : AccountRow)
      → IsDerived db.postings a × HasEntry a
      → IsDerived db'.postings (final_row r.balances a)
  IsDerived-at a (d, found) =
      after (λ b. b ≡ wrap64 (total (posted_to a.id) db'.postings)) a
        (All-imp (λ b derived same. new_balance a.id b derived same) p.locked
          (locked_All (IsDerived db.postings) h.derived))
        found (λ free. d ∙ ap wrap64 (unmoved a.id free))
      ∙ ap (λ i. wrap64 (total (posted_to i) db'.postings)) (sym (id-final_row r.balances a))
    where
      unmoved :
          (i : ℕ)
          → mem_id i (distinct_sorted_account_ids e.legs) ≡ false
          → total (posted_to i) db.postings ≡ total (posted_to i) db'.postings
      unmoved i free = sym (
          posted_total p i
          ∙ ap (λ z. total (posted_to i) db.postings +ℤ z) (unlocked_total i e.legs free)
          ∙ +ℤ_zero (total (posted_to i) db.postings))

  abbrev IsOnly : AccountRow → AccountRow → Type 0
  IsOnly a b = a.id ≡ b.id → a ≡ b

  IsCovered-at :
      (a : AccountRow)
      → (IsCovered a × HasEntry a) × All (IsOnly a) db.accounts
      → IsCovered (final_row r.balances a)
  IsCovered-at a ((c, found), only) flag =
      let flag_a : a.allow_negative ≡ false = sym (flag-final_row r.balances a) ∙ flag in
      after (λ b. pos 0 ≤ℤ b) a
        (All-imp (new_covered flag_a) p.locked (
          All-zip (Covered p.deltas) (IsOnly a) p.locked
            (new_balances-ok p.locked p.deltas p.balancing).1 (locked_All (IsOnly a) only)))
        found (λ free. c flag_a)
    where
      new_covered :
          a.allow_negative ≡ false
          → (b : AccountRow) → Covered p.deltas b × IsOnly a b
          → b.id ≡ a.id
          → pos 0 ≤ℤ add64 b.balance (value_at b.id p.deltas)
      new_covered flag_a b (cov, is_a) same =
          cov (ap AccountRow.allow_negative (sym (is_a (sym same))) ∙ flag_a)

  pub final_rows-IsDerived :
      All (λ (a : AccountRow). IsDerived db'.postings (final_row r.balances a)) db.accounts
  final_rows-IsDerived =
      All-imp IsDerived-at db.accounts
        (All-zip (IsDerived db.postings) HasEntry db.accounts h.derived found_entry)

  IsDerived-after : All (IsDerived db'.postings) db'.accounts
  IsDerived-after =
      subst (All (IsDerived db'.postings)) (sym accounts_after)
        (All-map (IsDerived db'.postings) (final_row r.balances) db.accounts final_rows-IsDerived)

  IsCovered-after : All IsCovered db'.accounts
  IsCovered-after = subst (All IsCovered) (sym accounts_after) (
      All-map IsCovered (final_row r.balances) db.accounts (
        All-imp IsCovered-at db.accounts (
          All-zip (λ a. IsCovered a × HasEntry a) (λ a. All (IsOnly a) db.accounts) db.accounts
            (All-zip IsCovered HasEntry db.accounts h.covered found_entry) h.keyed)))

  IsKeyed-after : IsKeyed db'.accounts
  IsKeyed-after =
      let f = final_row r.balances in
      subst IsKeyed (sym accounts_after) (
        All-map (λ a. All (IsOnly a) (map f db.accounts)) f db.accounts
          (All-imp only_at db.accounts h.keyed))
    where
      only_at :
          (a : AccountRow)
          → All (IsOnly a) db.accounts
          → All (IsOnly (final_row r.balances a)) (map (final_row r.balances) db.accounts)
      only_at a only =
          All-map (IsOnly (final_row r.balances a)) (final_row r.balances) db.accounts
            (All-imp (same_row a) db.accounts only)
        where
          same_row :
              (a b : AccountRow)
              → IsOnly a b
              → IsOnly (final_row r.balances a) (final_row r.balances b)
          same_row a b only same =
              ap (final_row r.balances)
                (only (sym (id-final_row r.balances a) ∙ same ∙ id-final_row r.balances b))

  fresh_after : All (λ (a : AccountRow). a.id < db'.account_seq) db'.accounts
  fresh_after =
      subst (λ rows. All (λ (a : AccountRow). a.id < db'.account_seq) rows) (sym accounts_after)
        (All-map (λ (a : AccountRow). a.id < db'.account_seq) (final_row r.balances) db.accounts
          (All-imp fresh_at db.accounts h.fresh))
    where
      fresh_at :
          (a : AccountRow) → a.id < db.account_seq → (final_row r.balances a).id < db'.account_seq
      fresh_at a lt = omega (arith, lt, id-final_row r.balances a, ap Db.account_seq p.written)

  IsPlaced-new :
      (i t : ℕ) (legs : List Leg)
      → All (λ l. any_row (is_place_of l) p.locked ≡ true) legs
      → All (IsPlaced db'.accounts) (posting_rows i t legs)
  IsPlaced-new i t [] all = tt
  IsPlaced-new i t (l ∷ legs) all = (place l all.0, IsPlaced-new (suc i) t legs all.1)
    where
      place :
          (l : Leg)
          → any_row (is_place_of l) p.locked ≡ true
          → any_row (is_place_of l) db'.accounts ≡ true
      place l found =
          ap (any_row (is_place_of l)) accounts_after
          ∙ any_row-map (is_place_of l) (final_row r.balances) db.accounts
              (place-final_row r.balances l.account_id l.currency)
          ∙ any_row-of_where_rows (is_place_of l) _ db.accounts (
              sym (any_row-sort_by AccountRow.id (is_place_of l) _)
              ∙ ap (any_row (is_place_of l)) (sym (locked_rows-ok _ db p.locking))
              ∙ found)

  IsPlaced-old : (q : PostingRow) → IsPlaced db.accounts q → IsPlaced db'.accounts q
  IsPlaced-old q found =
      ap (any_row (is_place q.account_id q.currency)) accounts_after
      ∙ any_row-map (is_place q.account_id q.currency) (final_row r.balances) db.accounts
          (place-final_row r.balances q.account_id q.currency)
      ∙ found

  IsPlaced-after : All (IsPlaced db'.accounts) db'.postings
  IsPlaced-after =
      subst (λ (d : Db). All (IsPlaced db'.accounts) d.postings) (sym p.written)
        (All-append (IsPlaced db'.accounts) db.postings _
          (All-imp IsPlaced-old db.postings h.placed)
          (IsPlaced-new db.posting_seq db.txn_seq e.legs
            (leg_deltas-placed e.legs p.locked [] p.changing)))

  conserved_after : (c : Currency) → wrap64 (total (posted_in c) db'.postings) ≡ pos 0
  conserved_after c =
      let T = total (posted_in c) db.postings in
      let D = total (leg_in c) e.legs in
      ap (λ (d : Db). wrap64 (total (posted_in c) d.postings)) p.written
      ∙ ap wrap64
          (total-append (posted_in c) db.postings (posting_rows db.posting_seq db.txn_seq e.legs))
      ∙ ap (λ z. wrap64 (T +ℤ z)) (posted_in-posting_rows c db.posting_seq db.txn_seq e.legs)
      ∙ sym (wrap64-+ℤ_left T D)
      ∙ ap (λ z. wrap64 (z +ℤ D)) (h.conserved c)
      ∙ ap wrap64 (zero_+ℤ D)
      ∙ ((validate_iff e).0 p.valid).nets c

  pub post-IsConsistent : IsConsistent db'
  post-IsConsistent = record {
    keyed = IsKeyed-after;
    fresh = fresh_after;
    placed = IsPlaced-after;
    derived = IsDerived-after;
    covered = IsCovered-after;
    conserved = conserved_after;
  }
