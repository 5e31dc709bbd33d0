-- ===== src/Store/Books/Exact.antt =====
-- internal/store/postings.go: the exact sums of the books after a posting.
use bytedance_double_entry_l.Prelude.{
  ℕ, suc, ◌≡◌, ap, ◌∙◌, Bool, Bool-cases, inl, inr, List, [], ◌∷◌, total, total-append, arith, ◌==◌,
  if◌then◌else◌, Option,
}
use bytedance_double_entry_l.Prelude.Int.{pos, ◌+ℤ◌, zero_+ℤ, int_laws}
use bytedance_double_entry_l.Money.Currency.{Currency}
use bytedance_double_entry_l.Ledger.Entry.{Leg, Entry}
use bytedance_double_entry_l.Ledger.Balance.{leg_in}
use bytedance_double_entry_l.Store.Schema.{Db}
use bytedance_double_entry_l.Store.Posting.{PostResult, Guard}
use bytedance_double_entry_l.Store.Posting.Commit.{posting_rows, Posted}
use bytedance_double_entry_l.Store.Books.{posted_in, posted_by, IsExact}
use bytedance_double_entry_l.Store.Books.Rows.{posted_in-posting_rows}

-- In every currency the amounts of the legs sum to exactly zero.
abbrev pub NetsToZero : List Leg → Type 0
NetsToZero legs = (c : Currency) → total (leg_in c) legs ≡ pos 0

posted_by-posting_rows :
    (u : ℕ) (c : Currency) (i t : ℕ) (legs : List Leg)
    → total (posted_by u c) (posting_rows i t legs)
      ≡ (if t == u then total (leg_in c) legs else pos 0)
posted_by-posting_rows u c i t [] = ground arith
posted_by-posting_rows u c i t (l ∷ legs) = elim (Bool-cases (t == u)) [
  | inl same ↦ rw (same, posted_by-posting_rows u c (suc i) t legs, same)
  | inr other ↦ rw (other, posted_by-posting_rows u c (suc i) t legs, other) (omega int_laws)
]

module _ {e : Entry} {guard : Option Guard} {db : Db} {r : PostResult} {db' : Db}
    (p : Posted e guard db r db') (h : IsExact db) (nets : NetsToZero e.legs) where
  by_txn_after : (u : ℕ) (c : Currency) → total (posted_by u c) db'.postings ≡ pos 0
  by_txn_after u c =
      ap (λ (d : Db). total (posted_by u c) d.postings) p.written
      ∙ total-append (posted_by u c) db.postings (posting_rows db.posting_seq db.txn_seq e.legs)
      ∙ ap (λ z. z +ℤ total (posted_by u c) (posting_rows db.posting_seq db.txn_seq e.legs))
          (h.by_txn u c)
      ∙ zero_+ℤ _
      ∙ posted_by-posting_rows u c db.posting_seq db.txn_seq e.legs
      ∙ none_left (db.txn_seq == u)
    where
      none_left : (b : Bool) → (if b then total (leg_in c) e.legs else pos 0) ≡ pos 0
      none_left b = ground (arith, nets c)

  by_currency_after : (c : Currency) → total (posted_in c) db'.postings ≡ pos 0
  by_currency_after c =
      ap (λ (d : Db). total (posted_in c) d.postings) p.written
      ∙ total-append (posted_in c) db.postings (posting_rows db.posting_seq db.txn_seq e.legs)
      ∙ ap (λ z. z +ℤ total (posted_in c) (posting_rows db.posting_seq db.txn_seq e.legs))
          (h.by_currency c)
      ∙ zero_+ℤ _
      ∙ posted_in-posting_rows c db.posting_seq db.txn_seq e.legs
      ∙ nets c

  pub post-IsExact : IsExact db'
  post-IsExact = record { by_txn = by_txn_after; by_currency = by_currency_after }
