-- ===== src/Ledger/Entry.antt =====
-- internal/ledger/types.go: kinds, legs, entries, and Entry.Validate.
use bytedance_double_entry_l.Prelude.{
  ℕ, String, Bool, true, Option, List, [], ◌∷◌, ltb, if◌then◌else◌, length, ◌&&◌,
}
use bytedance_double_entry_l.Prelude.Int.{ℤ, pos, eqb_ℤ}
use bytedance_double_entry_l.Prelude.GoMap.{add_at, string_eq}
use bytedance_double_entry_l.Errors.{
  Result, ok, err, unbalanced, too_few_legs, zero_leg, unknown_currency, ◌>>=◌,
}
use bytedance_double_entry_l.Money.Currency.{Currency, Minor, is_supported}

-- `type AccountKind string`; the API passes any text on.
pub data AccountKind : Type 0 where
  customer merchant external fx payout : AccountKind
  other : String → AccountKind

pub data TxnKind : Type 0 where
  transfer payment refund fx settlement : TxnKind

pub record Leg : Type 0 where
  pub account_id : ℕ
  pub currency : Currency
  pub amount : Minor

pub record Entry : Type 0 where
  pub kind : TxnKind
  pub memo : String
  pub ref_txn_id : Option ℕ
  pub legs : List Leg
  pub pending_settle : Bool

-- the loop over the legs, with `perCurrency`
unfoldable pub sum_legs : List Leg → List (Currency × ℤ) → Result (List (Currency × ℤ))
sum_legs [] sums = ok sums
sum_legs (l ∷ legs) sums =
    let rest = sum_legs legs (add_at l.currency l.amount sums) in
    if eqb_ℤ l.amount (pos 0)
    then err zero_leg
    else if is_supported l.currency
    then rest
    else err unknown_currency

-- the loop over `perCurrency`: whatever its order, some sum is not zero or none is
unfoldable pub all_zero : List (Currency × ℤ) → Bool
all_zero [] = true
all_zero ((c, sum) ∷ sums) = eqb_ℤ sum (pos 0) && all_zero sums

unfoldable pub validate : Entry → Result (Unit {0})
validate e =
    if ltb (length e.legs) 2
    then err too_few_legs
    else do sums ← sum_legs e.legs []; if all_zero sums then ok tt else err unbalanced
