-- ===== src/Money/Rate.antt =====
-- internal/money/fx.go: exchange rates as exact fractions. `math/big` is exact, so its products are
-- products of integers; the result leaves through `Int64`, which keeps the low 64 bits.
use bytedance_double_entry_l.Prelude.{ℕ, suc, ◌+◌, ◌-◌, ◌*◌, ◌/◌, ◌||◌, if◌then◌else◌}
use bytedance_double_entry_l.Prelude.Int.{ℤ, pos, negsuc, pos_part, neg, ltb_ℤ, leb_ℤ}
use bytedance_double_entry_l.Prelude.Word.{wrap64, neg64}
use bytedance_double_entry_l.Errors.{Result, ok, err, bad_rate, ◌>>◌}
use bytedance_double_entry_l.Money.Currency.{Minor}

pub record Rate : Type 0 where
  pub num : ℤ
  pub den : ℤ

unfoldable pub validate : Rate → Result (Unit {0})
validate r = if leb_ℤ r.num (pos 0) || leb_ℤ r.den (pos 0) then err bad_rate else ok tt

-- floor((f * num + den / 2) / den) over the big integers, for operands that are not negative
unfoldable pub rounded : ℕ → ℕ → ℕ → ℕ
rounded f num den = (f * num + den / 2) / den

-- Negating the least int64 gives itself, so `f` may still be negative there; `Quo` then truncates
-- towards zero.
unfoldable pub quotient : ℤ → ℕ → ℕ → ℤ
unfolding rounded neg
quotient (pos f) num den = pos (rounded f num den)
quotient (negsuc f) num den =
    if ltb_ℤ (pos (suc f * num)) (pos (den / 2))
    then pos ((den / 2 - suc f * num) / den)
    else neg (pos ((suc f * num - den / 2) / den))

unfoldable pub convert : Rate → Minor → Result Minor
convert r from = do
  validate r
  let is_neg = ltb_ℤ from (pos 0)
  let f = (if is_neg then neg64 from else from)
  let res = wrap64 (quotient f (pos_part r.num) (pos_part r.den))
  ok (if is_neg then neg64 res else res)
