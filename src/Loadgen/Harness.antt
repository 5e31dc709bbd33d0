-- ===== src/Loadgen/Harness.antt =====
-- internal/loadgen/harness.go: Run. The draws of the random generators, and the order in which the
-- workers and the monitor come to run, are a list of events; fmt.Sprintf is a parameter.
use bytedance_double_entry_l.Prelude.{
  ℕ, zero, suc, ◌%◌, String, false, List, [], ◌∷◌, ◌++◌, length, ◌==◌, if◌then◌else◌, str_eq,
}
use bytedance_double_entry_l.Prelude.Int.{ℤ, pos}
use bytedance_double_entry_l.Prelude.Word.{add64}
use bytedance_double_entry_l.Errors.{Result, ok, err}
use bytedance_double_entry_l.Money.Currency.{Currency, Minor}
use bytedance_double_entry_l.Money.Text.{Text}
use bytedance_double_entry_l.Ledger.Entry.{customer}
use bytedance_double_entry_l.Store.Session.{Session, Tx, pure, ◌>>=◌, ◌>>◌}
use bytedance_double_entry_l.Store.Mode.{reset}
use bytedance_double_entry_l.Store.Accounts.{create_account}
use bytedance_double_entry_l.Ops.{OpResult, Request, payment, transfer}
use bytedance_double_entry_l.Ops.Exchange.{Infra, ensure_infra}
use bytedance_double_entry_l.Loadgen.Metrics.{at}
use bytedance_double_entry_l.Loadgen.Checks.{
  Config, Measured, is_insufficient, sample, final_checks, idempotency_trial,
}

-- `Default`
unfoldable pub default : Config
default = record {
  workers = 16;
  ops_per_worker = 2000;
  accounts = 16;
  initial_each = pos 1000000;
  seed = pos 42;
  idem_trials = 200;
  idem_conc = 16;
  currency = "USD";
}

-- `Result{Config: c, ...}`
abbrev pub nothing_measured : Measured
nothing_measured = record {
  committed_transfers = 0;
  insufficient_funds_rejected = 0;
  other_errors = 0;
  accounts = 0;
  transactions_total = 0;
  postings_total = 0;
  conservation_samples = 0;
  conservation_violations = 0;
  negative_balance_samples = 0;
  double_spends = 0;
  lost_updates = 0;
  idem_keys_tested = 0;
  idem_submissions_total = 0;
  idem_exactly_once = 0;
  idem_duplicate_posts = pos 0;
  reconcile_ok = false;
  reconcile_drift = 0;
  reconcile_unbalanced_txns = 0;
  conservation_net = pos 0;
}

-- A worker draws two accounts and an amount and sends a transfer, or the monitor takes a sample.
pub data Event : Type 0 where
  transfer_drawn : ℕ → ℕ → ℕ → Event
  monitor_round : Event

-- another account than the first, if there is one
unfoldable pub other_than : ℕ → ℕ → ℕ → ℕ
other_than fi ti n = if fi == ti then suc ti % n else ti

unfoldable pub count : Result OpResult → Measured → Measured
unfolding is_insufficient
count (ok r) res = record res { committed_transfers = suc res.committed_transfers }
count (err e) res =
    if is_insufficient e
    then record res { insufficient_funds_rejected = suc res.insufficient_funds_rejected }
    else record res { other_errors = suc res.other_errors }

-- `infra[c.Currency].World`, which is 0 at a missing key
unfoldable pub world_of : Currency → List (Currency × Infra) → ℕ
world_of c [] = 0
world_of c ((k, x) ∷ m) = if str_eq k c then x.world else world_of c m

module _ (hash_request : Request → String) (to_string : Text → String) (account_name : ℕ → String)
    (c : Config) where
  -- the loop of seedAccounts, from account `i` on
  unfoldable pub seed_from : ℕ → ℕ → ℕ → List ℕ → Minor → Tx (List ℕ × Minor)
  seed_from zero i world ids total = pure (ids, total)
  seed_from (suc n) i world ids total = do
    a ← create_account (account_name i) c.currency customer false
    r ← payment hash_request "" world a.id c.initial_each c.currency
    seed_from n (suc i) world (ids ++ a.id ∷ []) (add64 total c.initial_each)

  unfoldable pub seed_accounts : ℕ → Tx (List ℕ × Minor)
  seed_accounts world = seed_from c.accounts 0 world [] (pos 0)

  -- runStorm, with the samples of the monitor between
  unfoldable pub storm : List Event → List ℕ → ℤ → Measured → Session → Measured × Session
  storm [] ids total res s = (res, s)
  storm (transfer_drawn fi ti amount ∷ events) ids total res s =
      let (r, s₁) =
        transfer hash_request "" (at fi ids) (at (other_than fi ti (length ids)) ids)
          (pos (suc amount)) c.currency s in
      storm events ids total (count r res) s₁
  storm (monitor_round ∷ events) ids total res s =
      let (res', s₁) = sample ids total res s in storm events ids total res' s₁

  abbrev pub storm_tx : List Event → List ℕ → ℤ → Tx Measured
  storm_tx events ids total s =
      let (res, s₁) = storm events ids total nothing_measured s in (ok res, s₁)

  -- from the seeded accounts on
  unfoldable pub measure : List Event → ℕ → List ℕ × Minor → Tx Measured
  measure events world (ids, total) = do
    res ← storm_tx events ids total
    res' ← final_checks c ids total res
    idempotency_trial hash_request to_string c world res'

  unfoldable pub run : List Event → Tx Measured
  run events = do
    reset
    infra ← ensure_infra (c.currency ∷ [])
    seeded ← seed_accounts (world_of c.currency infra)
    measure events (world_of c.currency infra) seeded
