-- ===== src/Ops.antt =====
-- internal/ops/ops.go: Transfer, Payment and Refund as entries posted through the store.
pub mod Exchange
pub mod Legs
pub mod Books
pub mod Refund
pub mod Told
pub mod Moves
pub mod Sequence
use bytedance_double_entry_l.Prelude.{
  ℕ, String, Bool, true, false, Option, none, some, List, [], ◌∷◌, ◌==◌, if◌then◌else◌, str_eq,
}
use bytedance_double_entry_l.Prelude.Int.{pos, leb_ℤ, ltb_ℤ}
use bytedance_double_entry_l.Prelude.Word.{add64, neg64}
use bytedance_double_entry_l.Errors.{
  Result, ok, err, non_positive, same_account, refund_exceeds_captured, ◌>>=◌ as and_then,
}
use bytedance_double_entry_l.Money.Currency.{Currency, Minor}
use bytedance_double_entry_l.Ledger.Entry.{
  Leg, Entry, transfer as transfer_kind, payment as payment_kind, refund as refund_kind,
}
use bytedance_double_entry_l.Store.Schema.{Db, Json, bool, number, object, end, field}
use bytedance_double_entry_l.Store.Session.{Tx, pure, fail, ◌>>=◌, ◌>>◌}
use bytedance_double_entry_l.Store.Posting.{Guard, PostResult, post_entry}
use bytedance_double_entry_l.Store.Payments.{PaymentLegs, get_payment_legs, refunded_so_far}
use bytedance_double_entry_l.Store.Idempotency.{
  IdemResult, post_entry_idempotent, post_entry_idempotent_guarded,
}

pub record OpResult : Type 0 where
  pub txn_id : ℕ
  pub replayed : Bool

-- The payloads that are hashed: transferReq, refundReq and fxReq.
pub data Request : Type 0 where
  transfer_req : String → ℕ → ℕ → Minor → Currency → Request
  refund_req : String → ℕ → Minor → Request
  fx_req : String → ℕ → ℕ → Minor → Minor → Minor → Request

-- `json.Marshal(Result{})`
abbrev pub empty_response : Json
empty_response = object (field "txn_id" (number (pos 0)) (field "replayed" (bool false) end))

abbrev pub leg : ℕ → Currency → Minor → Leg
leg i c a = record { account_id = i; currency = c; amount = a }

unfoldable pub transfer_entry : ℕ → ℕ → Minor → Currency → Entry
transfer_entry from to amount currency = record {
  kind = transfer_kind;
  memo = "transfer";
  ref_txn_id = none;
  legs = leg from currency (neg64 amount) ∷ leg to currency amount ∷ [];
  pending_settle = false;
}

unfoldable pub payment_entry : ℕ → ℕ → Minor → Currency → Entry
payment_entry source merchant amount currency = record {
  kind = payment_kind;
  memo = "payment";
  ref_txn_id = none;
  legs = leg source currency (neg64 amount) ∷ leg merchant currency amount ∷ [];
  pending_settle = true;
}

unfoldable pub refund_entry : ℕ → PaymentLegs → Minor → Entry
refund_entry payment_txn_id legs amount = record {
  kind = refund_kind;
  memo = "refund";
  ref_txn_id = some payment_txn_id;
  legs =
      leg legs.merchant_account_id legs.currency (neg64 amount)
      ∷ leg legs.source_account_id legs.currency amount
      ∷ [];
  pending_settle = false;
}

-- `prior+amount > legs.Captured`, in int64
abbrev pub within_captured : PaymentLegs → Minor → Minor → Result (Unit {0})
within_captured legs amount prior =
    if ltb_ℤ legs.captured (add64 prior amount) then err refund_exceeds_captured else ok tt

unfoldable pub refund_guard : ℕ → PaymentLegs → Minor → Guard
refund_guard payment_txn_id legs amount db =
    and_then (refunded_so_far payment_txn_id legs.merchant_account_id db)
      (within_captured legs amount)

abbrev of_post : PostResult → Tx OpResult
of_post r = pure (record { txn_id = r.txn_id; replayed = false })

abbrev of_idem : IdemResult → Tx OpResult
of_idem r = pure (record { txn_id = r.txn_id; replayed = r.replayed })

-- SHA-256 of the JSON of a payload, in hexadecimal: the packages crypto/sha256, encoding/json and
-- encoding/hex are the parameter.
module _ (hash_request : Request → String) where
  unfoldable pub post_idem : String → Entry → Request → Tx OpResult
  post_idem key e req =
      if str_eq key ""
      then post_entry e >>= of_post
      else post_entry_idempotent key (hash_request req) e empty_response >>= of_idem

  unfoldable pub transfer : String → ℕ → ℕ → Minor → Currency → Tx OpResult
  transfer key from to amount currency =
      if leb_ℤ amount (pos 0)
      then fail non_positive
      else if from == to
      then fail same_account
      else post_idem key (transfer_entry from to amount currency)
          (transfer_req "transfer" from to amount currency)

  unfoldable pub payment : String → ℕ → ℕ → Minor → Currency → Tx OpResult
  payment key source merchant amount currency =
      if leb_ℤ amount (pos 0)
      then fail non_positive
      else post_idem key (payment_entry source merchant amount currency)
          (transfer_req "payment" source merchant amount currency)

  -- the keyed posting of a refund, behind its guard
  unfoldable pub post_refund : String → ℕ → Minor → PaymentLegs → Tx OpResult
  post_refund key payment_txn_id amount legs = do
    r ←
        post_entry_idempotent_guarded key (hash_request (refund_req "refund" payment_txn_id amount))
          (refund_entry payment_txn_id legs amount) empty_response
          (some (refund_guard payment_txn_id legs amount))
    of_idem r

  unfoldable pub refund : String → ℕ → Minor → Tx OpResult
  refund key payment_txn_id amount =
      if leb_ℤ amount (pos 0)
      then fail non_positive
      else get_payment_legs payment_txn_id >>= post_refund key payment_txn_id amount
