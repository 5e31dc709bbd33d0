-- ===== src/Ops/Legs.antt =====
-- internal/ops: the legs of the operations' entries.
use bytedance_double_entry_l.Prelude.{
  ℕ, ◌≡◌, subst, ◌∙◌, Bool, Bool-cases, true, false, inl, inr, [], ◌∷◌, arith, str_eq,
  if◌then◌else◌,
}
use bytedance_double_entry_l.Prelude.Int.{ℤ, pos, neg, ltb_ℤ, leb_ℤ, ◌+ℤ◌, ◌<ℤ◌, int_laws}
use bytedance_double_entry_l.Prelude.Word.{InRange, wrap64, neg64, neg64_pos, wrap64-InRange}
use bytedance_double_entry_l.Errors.{ok, ok_inj, >>=-eq-ok}
use bytedance_double_entry_l.Money.Currency.{Currency, Minor}
use bytedance_double_entry_l.Money.Rate.{Rate, validate, convert}
use bytedance_double_entry_l.Store.Schema.{AccountRow}
use bytedance_double_entry_l.Store.Payments.{PaymentLegs}
use bytedance_double_entry_l.Store.Books.Exact.{NetsToZero}
use bytedance_double_entry_l.Ops.{leg, transfer_entry, payment_entry, refund_entry}
use bytedance_double_entry_l.Ops.Exchange.{fx_entry}

pub positive_amount : (m : Minor) → leb_ℤ m (pos 0) ≡ false → pos 0 <ℤ m
positive_amount m h = ground arith

-- a move takes from one account what it gives to another
pub move_net :
    (cur c : Currency) (m rest : ℤ)
    → (if str_eq cur c then neg m else pos 0) +ℤ ((if str_eq cur c then m else pos 0) +ℤ rest)
      ≡ rest
move_net cur c m rest = elim (Bool-cases (str_eq cur c)) [
  | inl same ↦ rw same (omega int_laws)
  | inr differs ↦ rw differs (omega int_laws)
]

module _ (m : Minor) (fits : InRange m) (positive : pos 0 <ℤ m) where
  move-NetsToZero : (a b : ℕ) (cur : Currency) → NetsToZero (leg a cur (neg64 m) ∷ leg b cur m ∷ [])
  move-NetsToZero a b cur c = rw (neg64_pos m fits positive) (move_net cur c m (pos 0))

  pub transfer_entry-NetsToZero :
      (from to : ℕ) (cur : Currency) → NetsToZero (transfer_entry from to m cur).legs
  unfolding transfer_entry
  transfer_entry-NetsToZero from to cur = move-NetsToZero from to cur

  pub payment_entry-NetsToZero :
      (source merchant : ℕ) (cur : Currency) → NetsToZero (payment_entry source merchant m cur).legs
  unfolding payment_entry
  payment_entry-NetsToZero source merchant cur = move-NetsToZero source merchant cur

  pub refund_entry-NetsToZero :
      (i : ℕ) (legs : PaymentLegs) → NetsToZero (refund_entry i legs m).legs
  unfolding refund_entry
  refund_entry-NetsToZero i legs =
      move-NetsToZero legs.merchant_account_id legs.source_account_id legs.currency

  pub fx_entry-NetsToZero :
      (n : Minor)
      → InRange n
      → pos 0 <ℤ n
      → (from_acc to_acc fx_from fx_to : AccountRow) (from to : ℕ) (rate : Rate)
      → NetsToZero (fx_entry from_acc to_acc fx_from fx_to m n from to rate).legs
  unfolding fx_entry
  fx_entry-NetsToZero n n_fits n_positive from_acc to_acc fx_from fx_to from to rate c =
      rw (neg64_pos m fits positive, neg64_pos n n_fits n_positive)
        (move_net from_acc.currency c m _ ∙ move_net to_acc.currency c n (pos 0))

-- A converted amount is an int64.
pub convert-InRange : (r : Rate) (from : Minor) {x : Minor} → convert r from ≡ ok x → InRange x
unfolding convert neg64
convert-InRange r from h =
    let (_, valid, k) = >>=-eq-ok (validate r) (λ _. ok (value (ltb_ℤ from (pos 0)) _)) h in
    subst InRange (ok_inj k) (in_range (ltb_ℤ from (pos 0)) _)
  where
    value : Bool → ℤ → ℤ
    value b z = if b then wrap64 (neg (wrap64 z)) else wrap64 z

    in_range : (b : Bool) (z : ℤ) → InRange (value b z)
    in_range true z = wrap64-InRange (neg (wrap64 z))
    in_range false z = wrap64-InRange z
