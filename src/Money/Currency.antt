-- ===== src/Money/Currency.antt =====
-- internal/money/money.go: the supported currencies and their scale.
use bytedance_double_entry_l.Prelude.{
  ℕ, zero, suc, String, Bool, true, false, Option, none, some, List, [], ◌∷◌, if◌then◌else◌, str_eq,
}
use bytedance_double_entry_l.Prelude.Int.{ℤ, pos}
use bytedance_double_entry_l.Prelude.Word.{mul64}
use bytedance_double_entry_l.Errors.{Result, ok, err, unknown_currency, ◌>>=◌}

-- `type Currency string`
abbrev pub Currency : Type 0
Currency = String

-- `type Minor int64`: a signed count of minor units; int64 arithmetic on it is in Prelude.Word.
abbrev pub Minor : Type 0
Minor = ℤ

abbrev pub currency_decimals : List (Currency × ℕ)
currency_decimals = ("USD", 2) ∷ ("EUR", 2) ∷ ("GBP", 2) ∷ ("CAD", 2) ∷ ("AUD", 2) ∷ []

unfoldable pub find_decimals : List (Currency × ℕ) → Currency → Option ℕ
find_decimals [] c = none
find_decimals ((k, d) ∷ m) c = if str_eq k c then some d else find_decimals m c

unfoldable pub is_supported : Currency → Bool
unfolding find_decimals
is_supported c = elim (find_decimals currency_decimals c) [ none ↦ false | some _ ↦ true ]

unfoldable pub decimals : Currency → Result ℕ
unfolding find_decimals
decimals c = elim (find_decimals currency_decimals c) [
  | none ↦ err unknown_currency
  | some d ↦ ok d
]

-- `for i := 0; i < d; i++ { s *= 10 }`
unfoldable pub scale_loop : ℕ → ℤ → ℤ
scale_loop zero s = s
scale_loop (suc d) s = scale_loop d (mul64 s (pos 10))

unfoldable pub scale : Currency → Result ℤ
unfolding scale_loop
scale c = do d ← decimals c; ok (scale_loop d (pos 1))
