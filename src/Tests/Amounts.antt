-- ===== src/Tests/Amounts.antt =====
-- The theorems on amounts and rates at concrete inputs.
use bytedance_double_entry_l.Prelude.{◌≡◌, ◌<◌, ◌≤◌, ◌+◌, ◌*◌, ◌^◌, refl, arith}
use bytedance_double_entry_l.Prelude.Int.{pos, negsuc, neg}
use bytedance_double_entry_l.Errors.{ok, ◌>>=◌}
use bytedance_double_entry_l.Money.Currency.{is_supported}
use bytedance_double_entry_l.Money.Major.{format_major, parse_major}
use bytedance_double_entry_l.Money.RoundTrip.{parse_major-format_major}
use bytedance_double_entry_l.Money.Rate.{rounded, convert}
use bytedance_double_entry_l.Money.Rounding.{convert_nearest}

parse_major-format_major_example :
    (format_major "USD" (negsuc 1233) >>= parse_major "USD") ≡ ok (negsuc 1233)
unfolding is_supported
parse_major-format_major_example =
    parse_major-format_major "USD" refl (negsuc 1233) (omega arith) (omega arith)

rounded_small : rounded 1000 3 2 < 2 ^ 63
unfolding rounded
rounded_small = omega arith

convert_nearest_example :
    let q = rounded 1000 3 2 in
    (convert (record { num = pos 3; den = pos 2 }) (negsuc 999) ≡ ok (neg (pos q)))
    × (2 * (q * 2) ≤ 2 * (1000 * 3) + 2)
    × (2 * (1000 * 3) < 2 * (q * 2) + 2)
convert_nearest_example =
    convert_nearest 3 2 (negsuc 999) (omega arith) (omega arith) (omega arith) rounded_small
