-- ===== src/Settle/Reconcile.antt =====
-- internal/settle/reconcile.go: the reconciliation job, which recomputes the balances from the
-- journal. Its five reads are five statements, not one transaction.
use bytedance_double_entry_l.Prelude.{
  ℕ, Bool, true, ◌&&◌, List, [], ◌∷◌, length, ◌==◌, if◌then◌else◌,
}
use bytedance_double_entry_l.Prelude.Int.{pos, eqb_ℤ}
use bytedance_double_entry_l.Prelude.Sort.{sort_by}
use bytedance_double_entry_l.Prelude.GoMap.{value_at, id_eq}
use bytedance_double_entry_l.Money.Currency.{Currency, Minor}
use bytedance_double_entry_l.Store.Session.{Tx, pure, ◌>>=◌}
use bytedance_double_entry_l.Store.Queries.{
  unbalanced_txns, stored_balances, recomputed_balances, conservation_by_currency, counts,
}

pub record DriftItem : Type 0 where
  pub account_id : ℕ
  pub stored : Minor
  pub derived : Minor

pub record ReconcileReport : Type 0 where
  pub is_ok : Bool
  pub accounts : ℕ
  pub transactions : ℕ
  pub postings : ℕ
  pub unbalanced : List ℕ
  pub balance_drift : List DriftItem
  pub conservation : List (Currency × Minor)
  pub conservation_ok : Bool
  pub drift_count : ℕ
  pub unbalanced_count : ℕ

-- the loop over `stored`
unfoldable pub drift_items : List (ℕ × Minor) → List (ℕ × Minor) → List DriftItem
drift_items [] derived = []
drift_items ((i, s) ∷ stored) derived =
    let rest = drift_items stored derived in
    if eqb_ℤ s (value_at i derived)
    then rest
    else record { account_id = i; stored = s; derived = value_at i derived } ∷ rest

-- the loop over `cons`
unfoldable pub is_conserved : List (Currency × Minor) → Bool
is_conserved [] = true
is_conserved ((c, v) ∷ cons) = eqb_ℤ v (pos 0) && is_conserved cons

unfoldable pub report :
    List ℕ
    → List (ℕ × Minor)
    → List (ℕ × Minor)
    → List (Currency × Minor)
    → ℕ × ℕ × ℕ
    → ReconcileReport
report unbalanced stored derived cons (accounts, txns, postings) =
    let drift = sort_by DriftItem.account_id (drift_items stored derived) in
    record {
      is_ok = (length unbalanced == 0) && (length drift == 0) && is_conserved cons;
      accounts = accounts;
      transactions = txns;
      postings = postings;
      unbalanced = unbalanced;
      balance_drift = drift;
      conservation = cons;
      conservation_ok = is_conserved cons;
      drift_count = length drift;
      unbalanced_count = length unbalanced;
    }

unfoldable pub reconcile : Tx ReconcileReport
reconcile = do
  unbalanced ← unbalanced_txns
  stored ← stored_balances
  derived ← recomputed_balances
  cons ← conservation_by_currency
  totals ← counts
  pure (report unbalanced stored derived cons totals)
