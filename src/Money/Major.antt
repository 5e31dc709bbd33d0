-- ===== src/Money/Major.antt =====
-- internal/money/money.go: ParseMajor and FormatMajor.
use bytedance_double_entry_l.Prelude.{
  ℕ, suc, ◌-◌, ◌/◌, ◌%◌, Bool, true, false, ◌&&◌, ◌||◌, [], ◌∷◌, ◌++◌, ltb, ◌==◌, if◌then◌else◌,
}
use bytedance_double_entry_l.Prelude.Int.{ℤ, pos, negsuc, neg, ltb_ℤ}
use bytedance_double_entry_l.Prelude.Word.{add64, mul64, neg64}
use bytedance_double_entry_l.Errors.{Result, ok, err, bad_amount, ◌>>=◌}
use bytedance_double_entry_l.Money.Currency.{Currency, Minor, decimals, scale}
use bytedance_double_entry_l.Money.Text.{
  Text, trim_space, byte_len, cut_dot, replicate, format_d, format_0d,
}

abbrev pub is_empty : Text → Bool
is_empty [] = true
is_empty (c ∷ s) = false

-- the `switch s[0]`: is the amount negative, and what follows the sign
unfoldable pub split_sign : Text → Bool × Text
split_sign [] = (false, [])
split_sign (c ∷ s) =
    if c == b'-' then (true, s) else if c == b'+' then (false, s) else (false, c ∷ s)

-- `for len(fracPart) < decimals { fracPart += "0" }`
unfoldable pub pad_frac : ℕ → Text → Text
pad_frac d s = s ++ replicate (d - byte_len s) b'0'

-- the loops over intPart and fracPart, in int64
unfoldable pub scan_digits : Text → ℤ → Result ℤ
scan_digits [] acc = ok acc
scan_digits (r ∷ s) acc =
    if ltb r b'0' || ltb b'9' r
    then err bad_amount
    else scan_digits s (add64 (mul64 acc (pos 10)) (pos (r - b'0')))

-- from the parts of the text to the amount
unfoldable pub assemble : Currency → Bool → Text → Text → Result Minor
assemble c is_neg int_part frac_part = do
  d ← decimals c
  whole ← scan_digits int_part (pos 0)
  frac ← scan_digits (pad_frac d frac_part) (pos 0)
  sc ← scale c
  let sum = add64 (mul64 whole sc) frac
  ok (if is_neg then neg64 sum else sum)

unfoldable pub parse_signed : Currency → Bool → Text → Result Minor
parse_signed c is_neg body = do
  d ← decimals c
  let (int_part, frac_part, has_frac) = cut_dot body
  if is_empty int_part && is_empty frac_part
      then err bad_amount
      else if has_frac && ltb d (byte_len frac_part)
      then err bad_amount
      else assemble c is_neg int_part frac_part

unfoldable pub parse_major : Currency → Text → Result Minor
parse_major c s = do
  d ← decimals c
  let t = trim_space s
  let (is_neg, body) = split_sign t
  if is_empty t then err bad_amount else parse_signed c is_neg body

-- Go's `/` and `%` on int64 by a positive divisor: truncated towards zero
unfoldable pub quo64 : ℤ → ℕ → ℤ
unfolding neg
quo64 (pos n) d = pos (n / d)
quo64 (negsuc n) d = neg (pos (suc n / d))

unfoldable pub rem64 : ℤ → ℕ → ℤ
unfolding neg
rem64 (pos n) d = pos (n % d)
rem64 (negsuc n) d = neg (pos (suc n % d))

abbrev to_ℕ : ℤ → ℕ
to_ℕ (pos n) = n
to_ℕ (negsuc n) = 0

unfoldable pub format_major : Currency → Minor → Result Text
format_major c m = do
  sc ← scale c
  d ← decimals c
  let is_neg = ltb_ℤ m (pos 0)
  let sign = (if is_neg then b'-' ∷ [] else [])
  let v = (if is_neg then neg64 m else m)
  let whole = quo64 v (to_ℕ sc)
  let frac = rem64 v (to_ℕ sc)
  if d == 0
      then ok (sign ++ format_d whole)
      else ok (sign ++ format_d whole ++ b'.' ∷ format_0d d frac)
