-- ===== src/Loadgen/Final.antt =====
-- internal/loadgen/checks.go: the final checks run through on sound books.
use bytedance_double_entry_l.Prelude.{
  ℕ, ◌≡◌, refl, subst, Bool-cases, inl, inr, true, false, none, some, List, [], ◌∷◌, arith, All,
  All-imp, All-zip, total, where_rows, where_rows-All,
}
use bytedance_double_entry_l.Prelude.Int.{ℤ, pos, ltb_ℤ, eqb_ℤ, eqb_ℤ_refl, ◌≤ℤ◌}
use bytedance_double_entry_l.Prelude.Word.{InRange}
use bytedance_double_entry_l.Errors.{ok}
use bytedance_double_entry_l.Money.Currency.{Minor}
use bytedance_double_entry_l.Store.Schema.{Db, AccountRow}
use bytedance_double_entry_l.Store.Session.{query, next_fault, ◌>>=◌}
use bytedance_double_entry_l.Store.Posting.{mem_id}
use bytedance_double_entry_l.Store.Books.Sound.{IsSound}
use bytedance_double_entry_l.Store.Queries.{min_balance, sum_min_balances}
use bytedance_double_entry_l.Settle.Reconcile.{report}
use bytedance_double_entry_l.Settle.Clean.{
  HasSizedSums, scan_fits, no_drift_items, quiet, clean_report, returns, clean,
}
use bytedance_double_entry_l.Loadgen.Checks.{Config, Measured, checked, final_checks}

min_balance-credit :
    (m : Minor) (rows : List AccountRow)
    → pos 0 ≤ℤ m
    → All (λ (a : AccountRow). pos 0 ≤ℤ a.balance) rows
    → pos 0 ≤ℤ min_balance (some m) rows
unfolding min_balance
min_balance-credit m [] h all = h
min_balance-credit m (a ∷ rows) h all = elim (Bool-cases (ltb_ℤ a.balance m)) [
  | inl lower ↦ rw lower (min_balance-credit a.balance rows all.0 all.1)
  | inr higher ↦ rw higher (min_balance-credit m rows h all.1)
]

pub least_credit :
    (rows : List AccountRow)
    → All (λ (a : AccountRow). pos 0 ≤ℤ a.balance) rows
    → pos 0 ≤ℤ min_balance none rows
unfolding min_balance
least_credit [] all = omega arith
least_credit (a ∷ rows) all = min_balance-credit a.balance rows all.0 all.1

not_negative : (z : ℤ) → pos 0 ≤ℤ z → ltb_ℤ z (pos 0) ≡ false
not_negative z h = ground (arith, h)

-- the accounts that were seeded
abbrev pub shared : List ℕ → Db → List AccountRow
shared ids db = where_rows (λ (a : AccountRow). mem_id a.id ids) db.accounts

module _ (db : Db) (h : IsSound db) (fits : HasSizedSums db) (c : Config) (ids : List ℕ)
    (expected : ℤ) (res : Measured) (sized : InRange (total AccountRow.balance (shared ids db)))
    (no_overdraft : All (λ (a : AccountRow). a.allow_negative ≡ false) (shared ids db)) where
  abbrev measured : Measured
  measured =
      checked c expected
        (total AccountRow.balance (shared ids db), min_balance none (shared ids db))
        (clean_report db h fits) res

  returned : final_checks c ids expected res (quiet db h fits) ≡ (ok measured, quiet db h fits)
  unfolding final_checks sum_min_balances ◌>>=◌ query next_fault
  returned = rw (scan_fits (total AccountRow.balance (shared ids db)) sized, returns db h fits) refl

  no_double_spend : measured.double_spends ≡ res.double_spends
  unfolding checked
  no_double_spend =
      rw
        (not_negative (min_balance none (shared ids db)) (
          least_credit (shared ids db) (
            All-imp (λ (a : AccountRow) p. p.0 p.1) (shared ids db)
              (All-zip _ _ (shared ids db)
                (where_rows-All _ (λ (a : AccountRow). mem_id a.id ids) db.accounts
                  h.consistent.covered)
                no_overdraft))))
        refl

  no_drift : (clean_report db h fits).drift_count ≡ 0
  unfolding report
  no_drift = rw (no_drift_items db h fits) refl

  no_lost_update :
      total AccountRow.balance (shared ids db) ≡ expected → measured.lost_updates ≡ res.lost_updates
  unfolding checked
  no_lost_update same =
      let equal : eqb_ℤ (total AccountRow.balance (shared ids db)) expected ≡ true =
        subst (λ z. eqb_ℤ (total AccountRow.balance (shared ids db)) z ≡ true) same
          (eqb_ℤ_refl (total AccountRow.balance (shared ids db))) in
      rw (equal, no_drift) (omega arith)

  -- On sound books, with no fault of the database, the final checks pass: they count no double
  -- spend, the reconciliation is OK, and no lost update is counted if the shared accounts hold what
  -- was seeded. The sums that are scanned fit an int64, and no shared account may be negative.
  pub final_checks-clean :
      (res' : Measured) × (final_checks c ids expected res (quiet db h fits)
        ≡ (ok res', quiet db h fits))
      × (res'.double_spends ≡ res.double_spends)
      × (res'.reconcile_ok ≡ true)
      × (total AccountRow.balance (shared ids db) ≡ expected → res'.lost_updates ≡ res.lost_updates)
  unfolding checked
  final_checks-clean = (measured, returned, no_double_spend, (clean db h fits).0, no_lost_update)
