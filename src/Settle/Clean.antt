-- ===== src/Settle/Clean.antt =====
-- internal/settle/reconcile.go: Reconcile on sound books.
use bytedance_double_entry_l.Prelude.{
  ℕ, ◌≡◌, refl, sym, ap, ◌∙◌, Bool, Bool-cases, true, false, ◌&&◌, ◌||◌, inl, inr, List, [], ◌∷◌,
  map, length, All, total, any_row, where_rows, arith, ◌==◌, ==_refl, ==_iff, false≢true,
}
use bytedance_double_entry_l.Prelude.Int.{ℤ, eqb_ℤ_refl}
use bytedance_double_entry_l.Prelude.Word.{InRange, wrap64_id}
use bytedance_double_entry_l.Prelude.GoMap.{value_at, id_eq, string_eq}
use bytedance_double_entry_l.Errors.{ok}
use bytedance_double_entry_l.Money.Currency.{Currency, Minor}
use bytedance_double_entry_l.Store.Schema.{Db, AccountRow, PostingRow}
use bytedance_double_entry_l.Store.Session.{Session, query, next_fault, ◌>>=◌}
use bytedance_double_entry_l.Store.Books.{posted_to, posted_in, IsDerived, IsExact}
use bytedance_double_entry_l.Store.Books.Sound.{IsSound}
use bytedance_double_entry_l.Store.Payments.{scan_int64}
use bytedance_double_entry_l.Store.Queries.{
  scan_all, distinct_keys, recomputed_rows, stored_rows, conservation_rows, is_unbalanced,
  unbalanced_rows, unbalanced_txns, stored_balances, recomputed_balances, conservation_by_currency,
  counts,
}
use bytedance_double_entry_l.Settle.Reconcile.{
  ReconcileReport, drift_items, is_conserved, report, reconcile,
}

any_none {ℓ} :
    {A : Type ℓ} (q : A → Bool) (xs : List A) → ((x : A) → q x ≡ false) → any_row q xs ≡ false
any_none q [] h = refl
any_none q (x ∷ xs) h = rw (h x) (any_none q xs h)

where_none {ℓ} :
    {A : Type ℓ} (q : A → Bool) (xs : List A) → ((x : A) → q x ≡ false) → where_rows q xs ≡ []
where_none q [] h = refl
where_none q (x ∷ xs) h = rw (h x) (where_none q xs h)

and_false : (b : Bool) → (b && false) ≡ false
and_false b = ground arith

none_unbalanced : (db : Db) → IsExact db → (t : ℕ) → is_unbalanced db t ≡ false
unfolding is_unbalanced
none_unbalanced db h t =
    any_none _ db.postings (λ p. rw (h.by_txn t p.currency) (and_false (p.txn_id == t)))

unbalanced_rows-empty : (db : Db) → IsExact db → unbalanced_rows db ≡ []
unfolding unbalanced_rows
unbalanced_rows-empty db h = rw (where_none (is_unbalanced db) _ (none_unbalanced db h)) refl

pub scan_fits : (z : ℤ) → InRange z → scan_int64 z ≡ ok z
unfolding scan_int64
scan_fits z h = ground arith

scan_all-fits {ℓ} :
    {K : Type ℓ} (rows : List (K × ℤ)) → All (λ p. InRange p.1) rows → scan_all rows ≡ ok rows
unfolding scan_all
scan_all-fits [] h = refl
scan_all-fits ((k, z) ∷ rows) h = rw (scan_fits z h.0, scan_all-fits rows h.1) refl

-- Looking up an account in the recomputed rows finds the sum of its postings.
pub derived_value :
    (i : ℕ) (accounts : List AccountRow) (ps : List PostingRow)
    → any_row (λ (a : AccountRow). a.id == i) accounts ≡ true
    → value_at i (map (λ (a : AccountRow). (a.id, total (posted_to a.id) ps)) accounts)
      ≡ total (posted_to i) ps
derived_value i [] ps h = absurd (false≢true h)
derived_value i (a ∷ accounts) ps h = elim (Bool-cases (a.id == i)) [
  | inl here ↦ rw here (ap (λ j. total (posted_to j) ps) ((==_iff a.id i).0 here))
  | inr later ↦ rw later (derived_value i accounts ps (rw later at h))
]

-- no account drifts, if each balance is the value recomputed for it
no_drift :
    (derived : List (ℕ × Minor)) (accounts : List AccountRow)
    → All (λ (a : AccountRow). value_at a.id derived ≡ a.balance) accounts
    → drift_items (map (λ (a : AccountRow). (a.id, a.balance)) accounts) derived ≡ []
unfolding drift_items
no_drift derived [] h = refl
no_drift derived (a ∷ accounts) h = rw (h.0, eqb_ℤ_refl a.balance) (no_drift derived accounts h.1)

all_conserved :
    (db : Db) (cs : List Currency)
    → IsExact db
    → is_conserved (map (λ c. (c, total (posted_in c) db.postings)) cs) ≡ true
unfolding is_conserved
all_conserved db [] h = refl
all_conserved db (c ∷ cs) h = rw (h.by_currency c) (all_conserved db cs h)

-- the sums that reconciliation scans into an int64 fit
abbrev pub HasSizedSums : Db → Type 0
HasSizedSums db = All (λ (a : AccountRow). InRange (total (posted_to a.id) db.postings)) db.accounts

module _ (db : Db) (h : IsSound db) (fits : HasSizedSums db) where
  recomputed_rows-fits : All (λ (p : ℕ × ℤ). InRange p.1) (recomputed_rows db)
  unfolding recomputed_rows
  recomputed_rows-fits = go db.accounts fits
    where
      go :
          (rows : List AccountRow)
          → All (λ (a : AccountRow). InRange (total (posted_to a.id) db.postings)) rows
          → All
              (λ (p : ℕ × ℤ). InRange p.1)
              (map (λ (a : AccountRow). (a.id, total (posted_to a.id) db.postings)) rows)
      go [] k = tt
      go (a ∷ rows) k = (k.0, go rows k.1)

  conservation_rows-fits : All (λ (p : Currency × ℤ). InRange p.1) (conservation_rows db)
  unfolding conservation_rows
  conservation_rows-fits = go (distinct_keys (map PostingRow.currency db.postings) [])
    where
      go :
          (cs : List Currency)
          → All
              (λ (p : Currency × ℤ). InRange p.1)
              (map (λ c. (c, total (posted_in c) db.postings)) cs)
      go [] = tt
      go (c ∷ cs) = rw (h.exact.by_currency c) ((omega arith, omega arith), go cs)

  stored_as_derived :
      All (λ (a : AccountRow). value_at a.id (recomputed_rows db) ≡ a.balance) db.accounts
  unfolding recomputed_rows
  stored_as_derived = go db.accounts (λ i found. found) fits h.consistent.derived
    where
      go :
          (rows : List AccountRow)
          → ((i : ℕ)
              → any_row (λ (a : AccountRow). a.id == i) rows ≡ true
              → any_row (λ (a : AccountRow). a.id == i) db.accounts ≡ true)
          → All (λ (a : AccountRow). InRange (total (posted_to a.id) db.postings)) rows
          → All (IsDerived db.postings) rows
          → All
              (λ (a : AccountRow).
                value_at a.id
                  (map (λ (b : AccountRow). (b.id, total (posted_to b.id) db.postings)) db.accounts)
                ≡ a.balance)
              rows
      go [] inside k m = tt
      go (a ∷ rows) inside k m = (
        derived_value a.id db.accounts db.postings (inside a.id (rw (==_refl a.id) refl))
            ∙ sym (wrap64_id _ k.0)
            ∙ sym m.0,
        go rows (λ i found. inside i (or_later (a.id == i) found)) k.1 m.1,
      )
        where
          or_later : (b : Bool) {c : Bool} → c ≡ true → (b || c) ≡ true
          or_later b e = ground arith

  pub no_drift_items : drift_items (stored_rows db) (recomputed_rows db) ≡ []
  unfolding stored_rows
  no_drift_items = no_drift (recomputed_rows db) db.accounts stored_as_derived

  conserved : is_conserved (conservation_rows db) ≡ true
  unfolding conservation_rows
  conserved = all_conserved db _ h.exact

  abbrev pub quiet : Session
  quiet = record { db = db; faults = [] }

  abbrev pub clean_report : ReconcileReport
  clean_report =
      report [] (stored_rows db) (recomputed_rows db) (conservation_rows db)
        (length db.accounts, length db.transactions, length db.postings)

  pub returns : reconcile quiet ≡ (ok clean_report, quiet)
  unfolding reconcile ◌>>=◌ query next_fault unbalanced_txns stored_balances recomputed_balances
      conservation_by_currency counts
  returns =
      rw
        (
          unbalanced_rows-empty db h.exact,
          scan_all-fits (recomputed_rows db) recomputed_rows-fits,
          scan_all-fits (conservation_rows db) conservation_rows-fits,
        )
        refl

  pub clean :
      (clean_report.is_ok ≡ true)
      × (clean_report.balance_drift ≡ [])
      × (clean_report.unbalanced ≡ [])
  unfolding report
  clean = (rw (no_drift_items, conserved) refl, rw no_drift_items refl, refl)

  -- On sound books whose sums fit an int64, and with no fault of the database, Reconcile returns a
  -- report that is OK, with no drift and no unbalanced transaction, and changes nothing.
  pub reconcile-clean :
      (rep : ReconcileReport) × (reconcile quiet ≡ (ok rep, quiet))
      × (rep.is_ok ≡ true)
      × (rep.balance_drift ≡ [])
      × (rep.unbalanced ≡ [])
  reconcile-clean = (clean_report, returns, clean.0, clean.1, clean.2)
