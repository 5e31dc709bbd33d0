-- ===== src/Money/Rounding.antt =====
-- internal/money/fx.go: the rounding of Rate.Convert.
use native.Mathlib.Nat.{add-zero, zero-add}
use bytedance_double_entry_l.Prelude.{
  ℕ, zero, suc, ◌+◌, ◌*◌, ◌/◌, ◌<◌, ◌≤◌, ◌^◌, ◌≡◌, arith, if◌then◌else◌,
}
use bytedance_double_entry_l.Prelude.Int.{
  pos, negsuc, pos_part, neg_part, neg, ltb_ℤ, pos_not_negative, negsuc_negative,
}
use bytedance_double_entry_l.Prelude.Word.{wrap64, neg64, wrap64_id, neg64_negsuc}
use bytedance_double_entry_l.Errors.{ok, err, bad_rate}
use bytedance_double_entry_l.Money.Currency.{Minor}
use bytedance_double_entry_l.Money.Rate.{Rate, validate, rounded, quotient, convert}

rounded_nearest :
    (x den : ℕ)
    → 0 < den
    → let q = (x + den / 2) / den in (2 * (q * den) ≤ 2 * x + den) × (2 * x < 2 * (q * den) + den)
rounded_nearest x den h = ground arith

-- A rate whose numerator or denominator is not positive is refused.
convert_bad_rate : (r : Rate) (m : Minor) → validate r ≡ err bad_rate → convert r m ≡ err bad_rate
unfolding convert
convert_bad_rate r m h = rw h

module _ (num den : ℕ) (num_pos : 0 < num) (den_pos : 0 < den) where
  abbrev rate : Rate
  rate = record { num = pos num; den = pos den }

  validate-rate : validate rate ≡ ok tt
  unfolding validate
  validate-rate = ground arith

  fits : (q : ℕ) → q < 2 ^ 63 → wrap64 (pos q) ≡ pos q
  fits q h = wrap64_id (pos q) (omega arith)

  neg64_fits : (q : ℕ) → q < 2 ^ 63 → neg64 (pos q) ≡ neg (pos q)
  unfolding neg64
  neg64_fits zero h = wrap64_id (neg (pos zero)) (ground arith)
  neg64_fits (suc q) h = wrap64_id (neg (pos (suc q))) (ground arith)

  convert_value :
      (m : Minor)
      → neg_part m < 2 ^ 63
      → rounded (pos_part m + neg_part m) num den < 2 ^ 63
      → convert rate m
        ≡ ok (
            if ltb_ℤ m (pos 0)
            then neg (pos (rounded (pos_part m + neg_part m) num den))
            else pos (rounded (pos_part m + neg_part m) num den))
  unfolding convert quotient
  convert_value (pos f) k h =
      rw (validate-rate, pos_not_negative f, add-zero, fits _ (rw add-zero at h))
  convert_value (negsuc f) k h =
      let fit : rounded (suc f) num den < 2 ^ 63 = rw zero-add at h in
      rw
        (validate-rate, negsuc_negative f, neg64_negsuc f k, zero-add, fits _ fit, neg64_fits _ fit)

-- At a valid rate and for an int64 amount other than the least, if the rounded value fits an int64,
-- Convert returns it with the sign of the amount. That value is the integer nearest to
-- |amount| * num / den, and the greater one at a tie.
pub convert_nearest :
    (num den : ℕ) (m : Minor)
    → 0 < num
    → 0 < den
    → neg_part m < 2 ^ 63
    → rounded (pos_part m + neg_part m) num den < 2 ^ 63
    → let f = pos_part m + neg_part m in
      let q = rounded f num den in
      (convert (record { num = pos num; den = pos den }) m
        ≡ ok (if ltb_ℤ m (pos 0) then neg (pos q) else pos q))
      × (2 * (q * den) ≤ 2 * (f * num) + den)
      × (2 * (f * num) < 2 * (q * den) + den)
unfolding rounded
convert_nearest num den m np dp k h =
    let near = rounded_nearest ((pos_part m + neg_part m) * num) den dp in
    (convert_value num den np dp m k h, near.0, near.1)
