-- ===== src/Loadgen/Checks.antt =====
-- internal/loadgen/checks.go: the samples of the monitor, the final checks and the idempotency trial.
-- Submissions that run at once are taken one after the other. Go's string conversion of the bytes of
-- itoa is a parameter. The metrics that come with an error are left out.
use bytedance_double_entry_l.Prelude.{
  ℕ, zero, suc, ◌+◌, String, str_append, Bool, true, false, List, [], ◌∷◌, ◌++◌, length, ◌==◌,
  if◌then◌else◌,
}
use bytedance_double_entry_l.Prelude.Int.{ℤ, pos, ◌+ℤ◌, ◌-ℤ◌, eqb_ℤ, ltb_ℤ}
use bytedance_double_entry_l.Prelude.GoMap.{value_at, string_eq}
use bytedance_double_entry_l.Errors.{Error, Result, ok, err, insufficient_funds}
use bytedance_double_entry_l.Money.Currency.{Currency, Minor}
use bytedance_double_entry_l.Money.Text.{Text}
use bytedance_double_entry_l.Ledger.Entry.{merchant}
use bytedance_double_entry_l.Store.Session.{Session, Tx, pure, ◌>>=◌}
use bytedance_double_entry_l.Store.Accounts.{ensure_account}
use bytedance_double_entry_l.Store.Posting.{mem_id}
use bytedance_double_entry_l.Store.Schema.{AccountRow}
use bytedance_double_entry_l.Store.Queries.{sum_balances_by_currency, sum_min_balances}
use bytedance_double_entry_l.Settle.Reconcile.{ReconcileReport, reconcile}
use bytedance_double_entry_l.Ops.{OpResult, Request, payment}
use bytedance_double_entry_l.Loadgen.Metrics.{itoa}

-- Counts are natural numbers.
pub record Config : Type 0 where
  pub workers : ℕ
  pub ops_per_worker : ℕ
  pub accounts : ℕ
  pub initial_each : Minor
  pub seed : ℤ
  pub idem_trials : ℕ
  pub idem_conc : ℕ
  pub currency : Currency

-- `Result`, less the times and the configuration
pub record Measured : Type 0 where
  pub committed_transfers : ℕ
  pub insufficient_funds_rejected : ℕ
  pub other_errors : ℕ
  pub accounts : ℕ
  pub transactions_total : ℕ
  pub postings_total : ℕ
  pub conservation_samples : ℕ
  pub conservation_violations : ℕ
  pub negative_balance_samples : ℕ
  pub double_spends : ℕ
  pub lost_updates : ℕ
  pub idem_keys_tested : ℕ
  pub idem_submissions_total : ℕ
  pub idem_exactly_once : ℕ
  pub idem_duplicate_posts : ℤ
  pub reconcile_ok : Bool
  pub reconcile_drift : ℕ
  pub reconcile_unbalanced_txns : ℕ
  pub conservation_net : Minor

unfoldable pub is_insufficient : Error → Bool
is_insufficient insufficient_funds = true
is_insufficient _ = false

-- the sums that are not zero
unfoldable pub violations : List (Currency × Minor) → ℕ
violations [] = 0
violations ((c, v) ∷ sums) =
    let rest = violations sums in if eqb_ℤ v (pos 0) then rest else suc rest

unfoldable pub note_sums : Result (List (Currency × Minor)) → Measured → Measured
note_sums (err e) res = res
note_sums (ok sums) res = record res {
  conservation_samples = suc res.conservation_samples;
  conservation_violations = res.conservation_violations + violations sums;
}

unfoldable pub note_balances : ℤ → Result (Minor × Minor) → Measured → Measured
note_balances total (err e) res = res
note_balances total (ok (sum, least)) res = record res {
  negative_balance_samples =
      if ltb_ℤ least (pos 0)
      then suc res.negative_balance_samples
      else res.negative_balance_samples;
  lost_updates = if eqb_ℤ sum total then res.lost_updates else suc res.lost_updates;
}

-- one round of the monitor's loop
unfoldable pub sample : List ℕ → ℤ → Measured → Session → Measured × Session
sample ids total res s =
    let (sums, s₁) = sum_balances_by_currency s in
    let (balances, s₂) = sum_min_balances ids s₁ in
    (note_balances total balances (note_sums sums res), s₂)

-- `finalChecks`
unfoldable pub checked : Config → ℤ → Minor × Minor → ReconcileReport → Measured → Measured
checked c total (sum, least) rep res = record res {
  double_spends = if ltb_ℤ least (pos 0) then suc res.double_spends else res.double_spends;
  lost_updates =
      (if eqb_ℤ sum total then res.lost_updates else suc res.lost_updates) + rep.drift_count;
  reconcile_ok = rep.is_ok;
  reconcile_drift = rep.drift_count;
  reconcile_unbalanced_txns = rep.unbalanced_count;
  conservation_net = value_at c.currency rep.conservation;
  accounts = rep.accounts;
  transactions_total = rep.transactions;
  postings_total = rep.postings;
}

unfoldable pub final_checks : Config → List ℕ → ℤ → Measured → Tx Measured
final_checks c ids total res = do
  balances ← sum_min_balances ids
  rep ← reconcile
  pure (checked c total balances rep res)

module _ (hash_request : Request → String) (to_string : Text → String) (c : Config) where
  -- `txIDs[r.TxnID] = struct{}{}`, if there is no error
  unfoldable pub note_id : Result OpResult → List ℕ → List ℕ
  note_id (err e) ids = ids
  note_id (ok r) ids = if mem_id r.txn_id ids then ids else ids ++ r.txn_id ∷ []

  -- the submissions of one key
  unfoldable pub submit : ℕ → String → ℕ → ℕ → List ℕ → Session → List ℕ × Session
  submit zero key world sink ids s = (ids, s)
  submit (suc n) key world sink ids s =
      let (r, s₁) = payment hash_request key world sink (pos 100) c.currency s in
      submit n key world sink (note_id r ids) s₁

  unfoldable pub key_of : ℕ → String
  key_of trial = str_append "idem-" (to_string (itoa (pos trial)))

  -- what the ids of a trial add to the metrics
  unfoldable pub judge : List ℕ → Measured → Measured
  judge ids res =
      let n = length ids in
      record res {
        idem_submissions_total = res.idem_submissions_total + c.idem_conc;
        idem_exactly_once = if n == 1 then suc res.idem_exactly_once else res.idem_exactly_once;
        idem_duplicate_posts =
            if n == 1
            then res.idem_duplicate_posts
            else res.idem_duplicate_posts +ℤ (pos n -ℤ pos 1);
      }

  -- so many trials, from the number of the first
  unfoldable pub trials : ℕ → ℕ → ℕ → ℕ → Measured → Session → Measured × Session
  trials zero trial world sink res s = (res, s)
  trials (suc n) trial world sink res s =
      let (ids, s₁) = submit c.idem_conc (key_of trial) world sink [] s in
      trials n (suc trial) world sink (judge ids res) s₁

  abbrev pub run_trials : ℕ → Measured → AccountRow → Tx Measured
  run_trials world res sink s =
      let (res', s') =
        trials c.idem_trials 0 world sink.id
          (record res { idem_keys_tested = c.idem_trials; idem_exactly_once = 0 }) s in
      (ok res', s')

  unfoldable pub idempotency_trial : ℕ → Measured → Tx Measured
  idempotency_trial world res =
      if c.idem_trials == 0
      then pure res
      else if c.idem_conc == 0
      then pure res
      else ensure_account "idem-sink" c.currency merchant false >>= run_trials world res
