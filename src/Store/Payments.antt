-- ===== src/Store/Payments.antt =====
-- internal/store/payments.go: the legs of a payment, and what has been refunded of it.
use bytedance_double_entry_l.Prelude.{
  ℕ, suc, ◌+◌, Bool, true, false, not, ◌&&◌, ◌||◌, Option, none, some, List, [], ◌∷◌, find_row,
  where_rows, total, any_row, ltb, ◌==◌, ◌^◌, if◌then◌else◌,
}
use bytedance_double_entry_l.Prelude.Int.{ℤ, pos, neg, pos_part, neg_part, ltb_ℤ}
use bytedance_double_entry_l.Errors.{Result, ok, err, not_a_payment, out_of_range}
use bytedance_double_entry_l.Money.Currency.{Currency, Minor}
use bytedance_double_entry_l.Ledger.Entry.{TxnKind, payment, refund}
use bytedance_double_entry_l.Store.Schema.{Db, TxnRow, PostingRow}
use bytedance_double_entry_l.Store.Session.{Tx, query, lift, ◌>>=◌, ◌>>◌}

pub record PaymentLegs : Type 0 where
  pub merchant_account_id : ℕ
  pub source_account_id : ℕ
  pub currency : Currency
  pub captured : Minor

abbrev pub is_payment : TxnKind → Bool
is_payment payment = true
is_payment _ = false

abbrev pub is_refund : TxnKind → Bool
is_refund refund = true
is_refund _ = false

-- SELECT kind FROM transactions WHERE id=$1, and the test on it
unfoldable pub payment_kind : ℕ → Db → Result (Unit {0})
payment_kind i db = elim (find_row (λ (t : TxnRow). t.id == i) db.transactions) [
  | none ↦ err not_a_payment
  | some t ↦ if is_payment t.kind then ok tt else err not_a_payment
]

-- one row of the loop, with `found`
unfoldable pub scan_leg : PaymentLegs × ℕ → PostingRow → PaymentLegs × ℕ
scan_leg (pl, found) p =
    if ltb_ℤ (pos 0) p.amount
    then (
      record pl { merchant_account_id = p.account_id; currency = p.currency; captured = p.amount },
      suc found,
    )
    else (record pl { source_account_id = p.account_id; currency = p.currency }, suc found)

unfoldable pub scan_legs : PaymentLegs × ℕ → List PostingRow → PaymentLegs × ℕ
unfolding scan_leg
scan_legs acc [] = acc
scan_legs acc (p ∷ ps) = scan_legs (scan_leg acc p) ps

-- `var pl PaymentLegs`
abbrev pub no_legs : PaymentLegs
no_legs = record { merchant_account_id = 0; source_account_id = 0; currency = ""; captured = pos 0 }

unfoldable pub checked_legs : PaymentLegs × ℕ → Result PaymentLegs
checked_legs (pl, found) =
    if not (found == 2) || (pl.merchant_account_id == 0) || (pl.source_account_id == 0)
    then err not_a_payment
    else ok pl

unfoldable pub payment_rows : ℕ → Db → List PostingRow
payment_rows i db = where_rows (λ (p : PostingRow). p.txn_id == i) db.postings

unfoldable pub get_payment_legs : ℕ → Tx PaymentLegs
unfolding payment_kind scan_legs checked_legs payment_rows
get_payment_legs i = do
  query (payment_kind i)
  rows ← query (λ db. ok (payment_rows i db))
  lift (checked_legs (scan_legs (no_legs, 0) rows))

-- A NUMERIC sum is scanned into an int64, and refused if it does not fit.
unfoldable pub scan_int64 : ℤ → Result ℤ
scan_int64 z =
    if ltb (pos_part z) (2 ^ 63) && ltb (neg_part z) (2 ^ 63 + 1) then ok z else err out_of_range

abbrev pub refs : ℕ → Option ℕ → Bool
refs i none = false
refs i (some j) = j == i

-- transactions of kind refund that refer to the payment
abbrev pub refund_of : ℕ → TxnRow → Bool
refund_of i t = is_refund t.kind && refs i t.ref_txn_id

-- what a posting has taken back from the merchant for the payment
abbrev pub refund_debit : ℕ → ℕ → List TxnRow → PostingRow → ℤ
refund_debit i merchant txns p =
    if any_row (λ (t : TxnRow). (t.id == p.txn_id) && refund_of i t) txns
      && (p.account_id == merchant)
      && ltb_ℤ p.amount (pos 0)
    then p.amount
    else pos 0

-- COALESCE(-SUM(p.amount), 0)
unfoldable pub refunded : ℕ → ℕ → Db → ℤ
refunded i merchant db = neg (total (refund_debit i merchant db.transactions) db.postings)

unfoldable pub refunded_so_far : ℕ → ℕ → Db → Result Minor
refunded_so_far i merchant db = scan_int64 (refunded i merchant db)
