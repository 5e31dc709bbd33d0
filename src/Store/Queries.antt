-- ===== src/Store/Queries.antt =====
-- internal/store/queries.go: the sums and counts that reconciliation reads. SUM over BIGINT is exact
-- and leaves through an int64; the rows of a GROUP BY stand in the order of their first occurrence.
use bytedance_double_entry_l.Prelude.{
  ℕ, Bool, not, ◌&&◌, Option, none, some, List, [], ◌∷◌, ◌++◌, map, length, total, any_row,
  where_rows, ◌==◌, if◌then◌else◌, str_eq,
}
use bytedance_double_entry_l.Prelude.Int.{ℤ, pos, eqb_ℤ, ltb_ℤ}
use bytedance_double_entry_l.Prelude.Sort.{sort_by}
use bytedance_double_entry_l.Prelude.GoMap.{Eq, id_eq, string_eq}
use bytedance_double_entry_l.Errors.{Result, ok, map_ok, ◌>>=◌ as and_then}
use bytedance_double_entry_l.Money.Currency.{Currency, Minor}
use bytedance_double_entry_l.Store.Schema.{Db, AccountRow, PostingRow}
use bytedance_double_entry_l.Store.Session.{Tx, query}
use bytedance_double_entry_l.Store.Posting.{mem_id}
use bytedance_double_entry_l.Store.Payments.{scan_int64}
use bytedance_double_entry_l.Store.Books.{posted_to, posted_in, posted_by}

-- the loop over the rows: each sum is scanned into an int64, and the first that does not fit fails
unfoldable pub scan_all {ℓ} : {K : Type ℓ} → List (K × ℤ) → Result (List (K × Minor))
scan_all [] = ok []
scan_all ((k, z) ∷ rows) =
    let rest = scan_all rows in and_then (scan_int64 z) (λ v. map_ok (λ m. (k, v) ∷ m) rest)

-- the keys of a GROUP BY
unfoldable pub distinct_keys {ℓ} : {K : Type ℓ} ⦃e : Eq K⦄ → List K → List K → List K
distinct_keys [] seen = seen
distinct_keys ⦃e⦄ (k ∷ ks) seen =
    distinct_keys ks (if any_row (λ j. e.beq j k) seen then seen else seen ++ k ∷ [])

-- accounts a LEFT JOIN postings p ON p.account_id = a.id GROUP BY a.id
unfoldable pub recomputed_rows : Db → List (ℕ × ℤ)
recomputed_rows db =
    map (λ (a : AccountRow). (a.id, total (posted_to a.id) db.postings)) db.accounts

unfoldable pub recomputed_balances : Tx (List (ℕ × Minor))
recomputed_balances = query (λ db. scan_all (recomputed_rows db))

unfoldable pub stored_rows : Db → List (ℕ × Minor)
stored_rows db = map (λ (a : AccountRow). (a.id, a.balance)) db.accounts

unfoldable pub stored_balances : Tx (List (ℕ × Minor))
stored_balances = query (λ db. ok (stored_rows db))

unfoldable pub conservation_rows : Db → List (Currency × ℤ)
conservation_rows db =
    map (λ c. (c, total (posted_in c) db.postings))
      (distinct_keys (map PostingRow.currency db.postings) [])

unfoldable pub conservation_by_currency : Tx (List (Currency × Minor))
conservation_by_currency = query (λ db. scan_all (conservation_rows db))

abbrev balance_in : Currency → AccountRow → ℤ
balance_in c a = if str_eq a.currency c then a.balance else pos 0

unfoldable pub sum_balances_by_currency : Tx (List (Currency × Minor))
unfolding distinct_keys
sum_balances_by_currency = query (λ db. scan_all (
    map (λ c. (c, total (balance_in c) db.accounts))
      (distinct_keys (map AccountRow.currency db.accounts) [])))

-- MIN(balance), and 0 for no rows
unfoldable pub min_balance : Option Minor → List AccountRow → Minor
min_balance none [] = pos 0
min_balance (some b) [] = b
min_balance none (a ∷ rows) = min_balance (some a.balance) rows
min_balance (some b) (a ∷ rows) =
    min_balance (some (if ltb_ℤ a.balance b then a.balance else b)) rows

unfoldable pub sum_min_balances : List ℕ → Tx (Minor × Minor)
unfolding min_balance
sum_min_balances ids = query (λ db.
    let rows = where_rows (λ (a : AccountRow). mem_id a.id ids) db.accounts in
    map_ok (λ sum. (sum, min_balance none rows)) (scan_int64 (total AccountRow.balance rows)))

-- some currency of the transaction has a sum that is not zero
unfoldable pub is_unbalanced : Db → ℕ → Bool
is_unbalanced db t =
    any_row
      (λ (p : PostingRow).
        (p.txn_id == t) && not (eqb_ℤ (total (posted_by t p.currency) db.postings) (pos 0)))
      db.postings

unfoldable pub unbalanced_rows : Db → List ℕ
unbalanced_rows db =
    sort_by (λ t. t)
      (where_rows (is_unbalanced db) (distinct_keys (map PostingRow.txn_id db.postings) []))

unfoldable pub unbalanced_txns : Tx (List ℕ)
unbalanced_txns = query (λ db. ok (unbalanced_rows db))

unfoldable pub counts : Tx (ℕ × ℕ × ℕ)
counts = query (λ db. ok (length db.accounts, length db.transactions, length db.postings))
