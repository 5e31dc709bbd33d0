-- ===== src/Loadgen/Counts.antt =====
-- internal/loadgen: what the counters of a run say.
use bytedance_double_entry_l.Prelude.{
  ◌∙◌, sym, ◌&&◌, false, where_rows, true, not, Bool, ℕ, suc, ◌≡◌, ◌+◌, refl, String, Bool-cases,
  inl, inr, List, [], ◌∷◌, length, arith, total,
}
use bytedance_double_entry_l.Prelude.Int.{ℤ, pos}
use bytedance_double_entry_l.Errors.{
  Error, Result, ok, err, unknown_currency, bad_amount, bad_rate, unbalanced, too_few_legs,
  zero_leg, account_not_found, insufficient_funds, currency_mismatch, idempotency_conflict,
  key_required, unexpected_state, not_a_payment, name_required, unique_violation,
  foreign_key_violation, no_rows, out_of_range, non_positive, refund_exceeds_captured, same_account,
  same_currency, converted_non_positive, bad_request, statement_failed, begin_failed, commit_failed,
  exhausted_retries,
}
use bytedance_double_entry_l.Money.Text.{Text}
use bytedance_double_entry_l.Money.Currency.{Minor}
use bytedance_double_entry_l.Store.Session.{Session}
use bytedance_double_entry_l.Store.Queries.{sum_min_balances, sum_balances_by_currency}
use bytedance_double_entry_l.Ops.{OpResult, Request, transfer}
use bytedance_double_entry_l.Loadgen.Metrics.{at}
use bytedance_double_entry_l.Loadgen.Checks.{
  Config, Measured, is_insufficient, note_sums, note_balances, sample,
}
use bytedance_double_entry_l.Loadgen.Harness.{
  Event, transfer_drawn, monitor_round, other_than, count, storm,
}

-- the kinds of a transfer's result
abbrev pub is_committed : Result OpResult → Bool
is_committed (ok r) = true
is_committed (err e) = false

abbrev pub is_short : Result OpResult → Bool
is_short (err insufficient_funds) = true
is_short _ = false

abbrev pub is_other : Result OpResult → Bool
is_other r = not (is_committed r) && not (is_short r)

abbrev pub how_many : (Result OpResult → Bool) → List (Result OpResult) → ℕ
how_many q rs = length (where_rows q rs)

-- The counters of the first measurement are those of the second, and the results counted by kind.
abbrev pub Tally : List (Result OpResult) → Measured → Measured → Type 0
Tally rs res res' =
    (res'.committed_transfers ≡ res.committed_transfers + how_many is_committed rs)
    × (res'.insufficient_funds_rejected ≡ res.insufficient_funds_rejected + how_many is_short rs)
    × (res'.other_errors ≡ res.other_errors + how_many is_other rs)

same_kind : (e : Error) → is_insufficient e ≡ is_short (err e)
unfolding is_insufficient
same_kind unknown_currency = refl
same_kind bad_amount = refl
same_kind bad_rate = refl
same_kind unbalanced = refl
same_kind too_few_legs = refl
same_kind zero_leg = refl
same_kind account_not_found = refl
same_kind insufficient_funds = refl
same_kind currency_mismatch = refl
same_kind idempotency_conflict = refl
same_kind key_required = refl
same_kind unexpected_state = refl
same_kind not_a_payment = refl
same_kind name_required = refl
same_kind unique_violation = refl
same_kind foreign_key_violation = refl
same_kind no_rows = refl
same_kind out_of_range = refl
same_kind non_positive = refl
same_kind refund_exceeds_captured = refl
same_kind same_account = refl
same_kind same_currency = refl
same_kind converted_non_positive = refl
same_kind bad_request = refl
same_kind (statement_failed x) = refl
same_kind (begin_failed x) = refl
same_kind (commit_failed x) = refl
same_kind (exhausted_retries x) = refl

one_more :
    (q : Result OpResult → Bool) (r : Result OpResult) (rs : List (Result OpResult))
    → how_many q (r ∷ rs) ≡ how_many q (r ∷ []) + how_many q rs
one_more q r rs = elim (Bool-cases (q r)) [
  | inl counts_it ↦ rw counts_it (omega arith)
  | inr skips_it ↦ rw skips_it (omega arith)
]

counted : (q : Result OpResult → Bool) (r : Result OpResult) → q r ≡ true → how_many q (r ∷ []) ≡ 1
counted q r h = rw h refl

skipped : (q : Result OpResult → Bool) (r : Result OpResult) → q r ≡ false → how_many q (r ∷ []) ≡ 0
skipped q r h = rw h refl

Tally-count : (r : Result OpResult) (res : Measured) → Tally (r ∷ []) res (count r res)
unfolding count
Tally-count (ok r) res = (omega arith, omega arith, omega arith)
Tally-count (err e) res = elim (Bool-cases (is_insufficient e)) [
  | inl short ↦
      let k = sym (same_kind e) ∙ short in
      let one = counted is_short (err e) k in
      let no_other = skipped is_other (err e) (rw k refl) in
      rw short (omega arith, omega (arith, one), omega (arith, no_other))
  | inr other ↦
      let k = sym (same_kind e) ∙ other in
      let none_short = skipped is_short (err e) k in
      let one = counted is_other (err e) (rw k refl) in
      rw other (omega arith, omega (arith, none_short), omega (arith, one))
]

Tally-then :
    (r : Result OpResult) (rs : List (Result OpResult)) (a b c : Measured)
    → Tally (r ∷ []) a b
    → Tally rs b c
    → Tally (r ∷ rs) a c
Tally-then r rs a b c (h₀, h₁, h₂) (k₀, k₁, k₂) = (
  omega (arith, h₀, k₀, one_more is_committed r rs),
  omega (arith, h₁, k₁, one_more is_short r rs),
  omega (arith, h₂, k₂, one_more is_other r rs),
)

-- the session after a round of the monitor, which reads twice
abbrev pub watched : List ℕ → Session → Session
watched ids s = (sum_min_balances ids (sum_balances_by_currency s).1).1

module _ (hash_request : Request → String) (to_string : Text → String) (account_name : ℕ → String)
    (c : Config) where
  -- what the transfers among the events came to, one after the other
  abbrev pub results : List Event → List ℕ → Session → List (Result OpResult)
  results [] ids s = []
  results (transfer_drawn fi ti amount ∷ events) ids s =
      let (r, s₁) =
        transfer hash_request "" (at fi ids) (at (other_than fi ti (length ids)) ids)
          (pos (suc amount)) c.currency s in
      r ∷ results events ids s₁
  results (monitor_round ∷ events) ids s = results events ids (watched ids s)

  Tally-sample :
      (ids : List ℕ) (total : ℤ) (res : Measured) (s : Session)
      → Tally [] res (sample ids total res s).0
  unfolding sample note_sums note_balances
  Tally-sample ids total res s = both _ _
    where
      both :
          (sums : Result _) (balances : Result (Minor × Minor))
          → Tally [] res (note_balances total balances (note_sums sums res))
      both (ok sums) (ok b) = (omega arith, omega arith, omega arith)
      both (ok sums) (err e) = (omega arith, omega arith, omega arith)
      both (err e) (ok b) = (omega arith, omega arith, omega arith)
      both (err e) (err f) = (omega arith, omega arith, omega arith)

  -- The counters of the storm grow by what its transfers came to, one by one: committed_transfers by
  -- the number of those without an error, insufficient_funds_rejected by the number of those refused
  -- for insufficient funds, other_errors by the number of those with any other error. The samples of
  -- the monitor between them change none of the three.
  pub storm_counts :
      (events : List Event) (ids : List ℕ) (total : ℤ) (res : Measured) (s : Session)
      → let rs = results events ids s in
        let res' = (storm hash_request to_string account_name c events ids total res s).0 in
        (res'.committed_transfers ≡ res.committed_transfers + how_many is_committed rs)
        × (res'.insufficient_funds_rejected
            ≡ res.insufficient_funds_rejected + how_many is_short rs)
        × (res'.other_errors ≡ res.other_errors + how_many is_other rs)
  unfolding storm sample
  storm_counts [] ids total res s = (omega arith, omega arith, omega arith)
  storm_counts (transfer_drawn fi ti amount ∷ events) ids total res s =
      let (r, s₁) =
        transfer hash_request "" (at fi ids) (at (other_than fi ti (length ids)) ids)
          (pos (suc amount)) c.currency s in
      Tally-then r (results events ids s₁) res (count r res)
        (storm hash_request to_string account_name c events ids total (count r res) s₁).0
        (Tally-count r res) (storm_counts events ids total (count r res) s₁)
  storm_counts (monitor_round ∷ events) ids total res s =
      let (res', s₁) = sample ids total res s in
      let (h₀, h₁, h₂) = Tally-sample ids total res s in
      let (k₀, k₁, k₂) = storm_counts events ids total res' s₁ in
      (omega (arith, h₀, k₀), omega (arith, h₁, k₁), omega (arith, h₂, k₂))
