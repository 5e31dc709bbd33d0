-- ===== src/Loadgen/Detects.antt =====
-- internal/loadgen/checks.go: what the final checks find, whatever the rows are.
use bytedance_double_entry_l.Prelude.{
  ℕ, suc, ◌≡◌, ◌↔◌, ◌+◌, refl, sym, ap, subst, ◌∙◌, Bool-cases, inl, inr, true, none, some, List,
  [], ◌∷◌, arith, All, total, if◌then◌else◌,
}
use bytedance_double_entry_l.Prelude.Int.{ℤ, pos, ltb_ℤ, eqb_ℤ, eqb_ℤ_eq, ◌≤ℤ◌}
use bytedance_double_entry_l.Errors.{ok, ok_inj, map_ok}
use bytedance_double_entry_l.Money.Currency.{Currency, Minor}
use bytedance_double_entry_l.Store.Schema.{Db, AccountRow}
use bytedance_double_entry_l.Store.Session.{Session}
use bytedance_double_entry_l.Store.Session.Inversion.{>>=-ok, query_then-ok, fst_eq}
use bytedance_double_entry_l.Store.Payments.{scan_int64}
use bytedance_double_entry_l.Store.Posting.Balances.{map_ok-ok}
use bytedance_double_entry_l.Ops.Refund.{scan_int64-ok}
use bytedance_double_entry_l.Store.Books.{posted_to, posted_by, posted_in}
use bytedance_double_entry_l.Store.Queries.{min_balance, sum_min_balances}
use bytedance_double_entry_l.Settle.Reconcile.{ReconcileReport, reconcile}
use bytedance_double_entry_l.Settle.Detects.{reconcile-no_drift, reconcile-detects}
use bytedance_double_entry_l.Loadgen.Checks.{Config, Measured, checked, final_checks}
use bytedance_double_entry_l.Loadgen.Final.{shared, least_credit}

abbrev pub InCredit : List AccountRow → Type 0
InCredit rows = All (λ (a : AccountRow). pos 0 ≤ℤ a.balance) rows

min_balance-some :
    (m : Minor) (rows : List AccountRow)
    → pos 0 ≤ℤ min_balance (some m) rows
    → (pos 0 ≤ℤ m) × InCredit rows
unfolding min_balance
min_balance-some m [] h = (h, tt)
min_balance-some m (a ∷ rows) h = elim (Bool-cases (ltb_ℤ a.balance m)) [
  | inl lower ↦
      let (first, rest) = min_balance-some a.balance rows (rw lower at h) in
      (ground (arith, first, lower), (first, rest))
  | inr higher ↦
      let (first, rest) = min_balance-some m rows (rw higher at h) in
      (first, (ground (arith, first, higher), rest))
]

min_balance-InCredit : (rows : List AccountRow) → pos 0 ≤ℤ min_balance none rows → InCredit rows
unfolding min_balance
min_balance-InCredit [] h = tt
min_balance-InCredit (a ∷ rows) h = min_balance-some a.balance rows h

-- what is read of the shared accounts
sum_min_balances-reads :
    (ids : List ℕ) (db : Db) {b : Minor × Minor}
    → (let rows = shared ids db in
        map_ok (λ sum. (sum, min_balance none rows)) (scan_int64 (total AccountRow.balance rows)))
      ≡ ok b
    → b ≡ (total AccountRow.balance (shared ids db), min_balance none (shared ids db))
sum_min_balances-reads ids db h =
    let (z, scanned, is) = map_ok-ok _ (scan_int64 (total AccountRow.balance (shared ids db))) h in
    sym is ∙ (λ i. ((scan_int64-ok _ scanned).0 i, min_balance none (shared ids db)))

final_checks-reads :
    (c : Config) (ids : List ℕ) (expected : ℤ) (res : Measured) (s : Session) {res' : Measured}
    {s' : Session}
    → final_checks c ids expected res s ≡ (ok res', s')
    → (s₁ : Session) × (s₂ : Session) × (rep : ReconcileReport) × (s₁.db ≡ s.db)
      × (reconcile s₁ ≡ (ok rep, s₂))
      × (res'
          ≡ checked c expected
              (total AccountRow.balance (shared ids s.db), min_balance none (shared ids s.db))
              rep
              res)
unfolding final_checks sum_min_balances
final_checks-reads c ids expected res s h =
    let (b, s₁, read, same, h₁) = query_then-ok _ _ s h in
    let (rep, s₂, reconciled, h₂) = >>=-ok reconcile _ s₁ h₁ in
    (
      s₁,
      s₂,
      rep,
      same,
      reconciled,
      sym (ok_inj (fst_eq h₂))
          ∙ ap (λ b. checked c expected b rep res) (sum_min_balances-reads ids s.db read),
    )

negative_iff : (z : ℤ) (n : ℕ) → ((if ltb_ℤ z (pos 0) then suc n else n) ≡ n) ↔ (pos 0 ≤ℤ z)
negative_iff z n = elim (Bool-cases (ltb_ℤ z (pos 0))) [
  | inl below ↦ rw below ((λ h. absurd (omega (arith, h))), λ h. ground (arith, h, below))
  | inr above ↦ rw above ((λ h. ground (arith, above)), λ h. refl)
]

none_lost :
    (sum expected : ℤ) (n drift : ℕ)
    → (if eqb_ℤ sum expected then n else suc n) + drift ≡ n
    → (sum ≡ expected) × (drift ≡ 0)
none_lost sum expected n drift h = elim (Bool-cases (eqb_ℤ sum expected)) [
  | inl same ↦ let k = rw same at h in (eqb_ℤ_eq sum expected same, omega (arith, k))
  | inr differs ↦ let k = rw differs at h in absurd (omega (arith, k))
]

-- Whatever the rows are, final checks that succeed leave the count of double spends exactly when no
-- shared account is negative. If they leave the count of lost updates, the shared accounts hold what
-- was expected and every cached balance is the exact sum of its postings. If they report an OK
-- reconciliation, every cached balance is, and every transaction and the whole journal net to zero in
-- every currency.
pub final_checks-detects :
    (c : Config) (ids : List ℕ) (expected : ℤ) (res : Measured) (s : Session) {res' : Measured}
    {s' : Session}
    → final_checks c ids expected res s ≡ (ok res', s')
    → ((res'.double_spends ≡ res.double_spends) ↔ InCredit (shared ids s.db))
      × (res'.lost_updates ≡ res.lost_updates
          → (total AccountRow.balance (shared ids s.db) ≡ expected)
            × All
                (λ (a : AccountRow). a.balance ≡ total (posted_to a.id) s.db.postings)
                s.db.accounts)
      × (res'.reconcile_ok ≡ true
          → All (λ (a : AccountRow). a.balance ≡ total (posted_to a.id) s.db.postings) s.db.accounts
            × ((t : ℕ) (c : Currency) → total (posted_by t c) s.db.postings ≡ pos 0)
            × ((c : Currency) → total (posted_in c) s.db.postings ≡ pos 0))
unfolding checked
final_checks-detects c ids expected res s h =
    let (s₁, s₂, rep, same, reconciled, is) = final_checks-reads c ids expected res s h in
    let rows = shared ids s.db in
    let least = negative_iff (min_balance none rows) res.double_spends in
    let spends = ap Measured.double_spends is in
    (
      (
        λ k. min_balance-InCredit rows (least.0 (sym spends ∙ k)),
        λ credit. spends ∙ least.1 (least_credit rows credit),
      ),
      λ k.
          let (sums, drift) =
            none_lost (total AccountRow.balance rows) expected res.lost_updates rep.drift_count
              (sym (ap Measured.lost_updates is) ∙ k) in
          (
            sums,
            subst
                (λ (d : Db).
                  All (λ (a : AccountRow). a.balance ≡ total (posted_to a.id) d.postings)
                    d.accounts)
                same (reconcile-no_drift s₁ reconciled drift),
          ),
      λ k.
          subst
            (λ (d : Db).
              All (λ (a : AccountRow). a.balance ≡ total (posted_to a.id) d.postings) d.accounts
              × ((t : ℕ) (c : Currency) → total (posted_by t c) d.postings ≡ pos 0)
              × ((c : Currency) → total (posted_in c) d.postings ≡ pos 0))
            same (reconcile-detects s₁ reconciled (sym (ap Measured.reconcile_ok is) ∙ k)),
    )
