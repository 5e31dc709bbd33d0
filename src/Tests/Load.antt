-- ===== src/Tests/Load.antt =====
-- The theorems on the load harness at concrete inputs.
use bytedance_double_entry_l.Prelude.{
  ◌⊎◌, All, ◌↔◌, ◌≡◌, ◌≤◌, ◌+◌, refl, ℕ, String, true, List, [], ◌∷◌, any_row, ◌==◌, if◌then◌else◌,
  total, arith,
}
use bytedance_double_entry_l.Prelude.Int.{◌+ℤ◌, ℤ, pos, negsuc}
use bytedance_double_entry_l.Prelude.Word.{InRange}
use bytedance_double_entry_l.Errors.{ok}
use bytedance_double_entry_l.Money.Text.{Text, format_d}
use bytedance_double_entry_l.Store.Schema.{AccountRow, Json}
use bytedance_double_entry_l.Loadgen.Metrics.{percentile, itoa}
use bytedance_double_entry_l.Loadgen.Checks.{submit, Config, Measured, final_checks}
use bytedance_double_entry_l.Loadgen.Harness.{
  Event, transfer_drawn, monitor_round, nothing_measured, storm,
}
use bytedance_double_entry_l.Loadgen.Percentiles.{percentile_drawn}
use bytedance_double_entry_l.Loadgen.Itoa.{itoa-format_d}
use bytedance_double_entry_l.Loadgen.Counts.{
  results, how_many, is_committed, is_short, is_other, storm_counts,
}
use bytedance_double_entry_l.Loadgen.Detects.{InCredit, final_checks-detects}
use bytedance_double_entry_l.Money.Currency.{Currency}
use bytedance_double_entry_l.Store.Books.{posted_to, posted_by, posted_in}
use bytedance_double_entry_l.Loadgen.Trial.{hash, submit_once}
use bytedance_double_entry_l.Store.Idempotency.Keys.{IsCompleted}
use bytedance_double_entry_l.Loadgen.Final.{shared, final_checks-clean}
use bytedance_double_entry_l.Tests.Fixtures.{
  tag, demo_db, demo, demo_db-IsSound, demo_db-HasSizedSums,
}

-- the ranks that float64 gives for the 50th and the 100th percentile of three samples
abbrev p50 : ℕ → ℤ
p50 n = pos 1

abbrev p100 : ℕ → ℤ
p100 n = pos 2

percentile_drawn_example :
    (any_row (λ x. x == percentile p50 (30 ∷ 10 ∷ 20 ∷ [])) (30 ∷ 10 ∷ 20 ∷ []) ≡ true)
    × (percentile p50 (30 ∷ 10 ∷ 20 ∷ []) ≤ percentile p100 (30 ∷ 10 ∷ 20 ∷ []))
percentile_drawn_example = percentile_drawn 30 (10 ∷ 20 ∷ []) p50 p100 (omega arith)

itoa-format_d_example : itoa (negsuc 41) ≡ format_d (negsuc 41)
itoa-format_d_example = itoa-format_d (negsuc 41) (omega arith, omega arith) (λ e. cc)

abbrev small : Config
small = record {
  workers = 1;
  ops_per_worker = 2;
  accounts = 2;
  initial_each = pos 100;
  seed = pos 42;
  idem_trials = 1;
  idem_conc = 2;
  currency = "USD";
}

abbrev events : List Event
events = transfer_drawn 0 1 9 ∷ monitor_round ∷ transfer_drawn 1 1 500 ∷ []

abbrev plain : Text → String
plain t = "0"

abbrev named : ℕ → String
named i = if i == 0 then "bench-acct-0" else "bench-acct-1"

storm_counts_example :
    let rs = results tag plain named small events (2 ∷ 1 ∷ []) demo in
    let res' = (storm tag plain named small events (2 ∷ 1 ∷ []) (pos 0) nothing_measured demo).0 in
    (res'.committed_transfers ≡ 0 + how_many is_committed rs)
    × (res'.insufficient_funds_rejected ≡ 0 + how_many is_short rs)
    × (res'.other_errors ≡ 0 + how_many is_other rs)
storm_counts_example =
    storm_counts tag plain named small events (2 ∷ 1 ∷ []) (pos 0) nothing_measured demo

shop_sized : InRange (total AccountRow.balance (shared (2 ∷ []) demo_db))
unfolding ◌+ℤ◌
shop_sized = (omega arith, omega arith)

-- the final checks of the small ledger, with its shop as the only shared account
demo_checks :
    (res' : Measured) × (final_checks small (2 ∷ []) (pos 70) nothing_measured demo
      ≡ (ok res', demo))
demo_checks =
    let (res', runs, no_spend, is_ok, no_loss) =
      final_checks-clean demo_db demo_db-IsSound demo_db-HasSizedSums small (2 ∷ []) (pos 70)
        nothing_measured shop_sized (refl, tt) in
    (res', runs)

final_checks-detects_example :
    ((demo_checks.0.double_spends ≡ 0) ↔ InCredit (shared (2 ∷ []) demo_db))
    × (demo_checks.0.lost_updates ≡ 0
        → (total AccountRow.balance (shared (2 ∷ []) demo_db) ≡ pos 70)
          × All
              (λ (a : AccountRow). a.balance ≡ total (posted_to a.id) demo_db.postings)
              demo_db.accounts)
    × (demo_checks.0.reconcile_ok ≡ true
        → All
            (λ (a : AccountRow). a.balance ≡ total (posted_to a.id) demo_db.postings)
            demo_db.accounts
          × ((t : ℕ) (c : Currency) → total (posted_by t c) demo_db.postings ≡ pos 0)
          × ((c : Currency) → total (posted_in c) demo_db.postings ≡ pos 0))
final_checks-detects_example =
    final_checks-detects small (2 ∷ []) (pos 70) nothing_measured demo demo_checks.1

submit_once_example :
    let (ids, s') = submit tag plain small 3 "idem-0" 1 2 [] demo in
    (ids ≡ [])
    ⊎ ((t : ℕ) × (ids ≡ t ∷ [])
        × (stored : Json) × IsCompleted "idem-0"
            (hash tag plain small "idem-0" refl 1 2)
            t
            stored
            s'.db)
submit_once_example = submit_once tag plain small "idem-0" refl 1 2 3 demo refl
