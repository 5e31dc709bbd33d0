-- ===== src/Store/Books/Rows.antt =====
-- The rows that a posting reads and writes, seen as sums and memberships.
use bytedance_double_entry_l.Prelude.{
  ℕ, suc, ◌≡◌, refl, sym, ap, Bool, Bool-cases, inl, inr, List, [], ◌∷◌, map, where_rows, any_row,
  ◌||◌, total, ◌==◌, length,
}
use bytedance_double_entry_l.Prelude.Sort.{sort_by}
use bytedance_double_entry_l.Prelude.Int.{ℤ, ◌+ℤ◌}
use bytedance_double_entry_l.Prelude.GoMap.{id_eq}
use bytedance_double_entry_l.Errors.{ok, ok_inj, err-ne-ok}
use bytedance_double_entry_l.Money.Currency.{Currency, Minor}
use bytedance_double_entry_l.Ledger.Entry.{Leg}
use bytedance_double_entry_l.Ledger.Balance.{leg_in}
use bytedance_double_entry_l.Store.Schema.{Db, AccountRow}
use bytedance_double_entry_l.Store.Posting.{mem_id, locked_rows}
use bytedance_double_entry_l.Store.Posting.Commit.{posting_rows}
use bytedance_double_entry_l.Store.Posting.Balances.{leg_to, entry_of}
use bytedance_double_entry_l.Store.Books.{posted_to, posted_in}

pub posted_in-posting_rows :
    (c : Currency) (i t : ℕ) (legs : List Leg)
    → total (posted_in c) (posting_rows i t legs) ≡ total (leg_in c) legs
posted_in-posting_rows c i t [] = refl
posted_in-posting_rows c i t (l ∷ legs) =
    ap (λ z. leg_in c l +ℤ z) (posted_in-posting_rows c (suc i) t legs)

pub posted_to-posting_rows :
    (a i t : ℕ) (legs : List Leg)
    → total (posted_to a) (posting_rows i t legs) ≡ total (leg_to a) legs
posted_to-posting_rows a i t [] = refl
posted_to-posting_rows a i t (l ∷ legs) =
    ap (λ z. leg_to a l +ℤ z) (posted_to-posting_rows a (suc i) t legs)

-- The rows that were locked are rows of the table, and every row with a locked id is among them.
pub locked_rows-ok :
    (ids : List ℕ) (db : Db) {rows : List AccountRow}
    → locked_rows ids db ≡ ok rows
    → rows ≡ sort_by AccountRow.id (where_rows (λ (a : AccountRow). mem_id a.id ids) db.accounts)
unfolding locked_rows
locked_rows-ok ids db h =
    let rows =
      sort_by AccountRow.id (where_rows (λ (a : AccountRow). mem_id a.id ids) db.accounts) in
    elim (Bool-cases (length rows == length ids)) [
      | inl all ↦ sym (ok_inj (rw all at h))
      | inr some_missing ↦ absurd (err-ne-ok (rw some_missing at h))
    ]

pub any_row-entries :
    (i : ℕ) (deltas : List (ℕ × ℤ)) (rows : List AccountRow)
    → any_row (λ (p : ℕ × Minor). p.0 == i) (map (entry_of deltas) rows)
      ≡ any_row (λ (a : AccountRow). a.id == i) rows
any_row-entries i deltas [] = refl
any_row-entries i deltas (a ∷ rows) =
    ap (λ (b : Bool). (a.id == i) || b) (any_row-entries i deltas rows)
