-- ===== src/Api/Server.antt =====
-- internal/api/server.go: the routes, the response envelope, and the mapping of errors to statuses.
-- net/http is outside: it picks the route of a request, and hands over its parts.
use bytedance_double_entry_l.Prelude.{ℕ, String, Bool, true, false, Option, none, some, List}
use bytedance_double_entry_l.Errors.{
  Error, Result, ok, err, account_not_found, not_a_payment, insufficient_funds,
  refund_exceeds_captured, non_positive, currency_mismatch, unknown_currency, bad_rate, bad_request,
  idempotency_conflict,
}
use bytedance_double_entry_l.Money.Currency.{Minor}
use bytedance_double_entry_l.Money.Text.{Text}
use bytedance_double_entry_l.Store.Schema.{AccountRow}
use bytedance_double_entry_l.Store.Session.{Session, Tx}
use bytedance_double_entry_l.Store.Mode.{IsolationMode}
use bytedance_double_entry_l.Store.Accounts.{LedgerLine}
use bytedance_double_entry_l.Store.Settlement.{SettlementResult}
use bytedance_double_entry_l.Ops.{OpResult}
use bytedance_double_entry_l.Ops.Exchange.{FxResult}
use bytedance_double_entry_l.Settle.Reconcile.{ReconcileReport}

pub data Route : Type 0 where
  health create_account balance ledger : Route
  transfer payment refund fx settle reconcile : Route

-- the patterns of the ServeMux
unfoldable pub pattern : Route → String
pattern health = "GET /health"
pattern create_account = "POST /accounts"
pattern balance = "GET /accounts/{id}/balance"
pattern ledger = "GET /accounts/{id}/ledger"
pattern transfer = "POST /transactions/transfer"
pattern payment = "POST /transactions/payment"
pattern refund = "POST /transactions/refund"
pattern fx = "POST /transactions/fx"
pattern settle = "POST /settle"
pattern reconcile = "GET /reconcile"

-- The `Data` of an envelope, before it is written as JSON.
pub data Payload : Type 0 where
  nothing : Payload
  health_data : IsolationMode → ℕ × ℕ × ℕ → Payload
  account_data : AccountRow → Payload
  balance_data : AccountRow → Text → Payload
  ledger_data : ℕ → Minor → List LedgerLine → Payload
  op_data : OpResult → Payload
  fx_data : FxResult → Payload
  settlement_data : SettlementResult → Payload
  report_data : ReconcileReport → Payload

pub record Envelope : Type 0 where
  pub success : Bool
  pub data_of : Payload
  pub error : Option Error

pub record Response : Type 0 where
  pub status : ℕ
  pub envelope : Envelope

-- `ok`
unfoldable pub success : ℕ → Payload → Response
success status data_of = record {
  status = status;
  envelope = record { success = true; data_of = data_of; error = none };
}

-- the `switch` of `fail`
unfoldable pub fail_status : Error → ℕ
fail_status account_not_found = 404
fail_status not_a_payment = 404
fail_status insufficient_funds = 400
fail_status refund_exceeds_captured = 400
fail_status non_positive = 400
fail_status currency_mismatch = 400
fail_status unknown_currency = 400
fail_status bad_rate = 400
fail_status bad_request = 400
fail_status idempotency_conflict = 409
fail_status _ = 500

-- `fail`
unfoldable pub failure : Error → Response
unfolding fail_status
failure e = record {
  status = fail_status e;
  envelope = record { success = false; data_of = nothing; error = some e };
}

-- A handler runs an operation and writes `fail` or what it makes of the result.
abbrev pub Handler : Type 0
Handler = Session → Response × Session

module _ {ℓ} {A : Type ℓ} where
  abbrev pub answer : (A → Response) → Result A → Response
  answer written (ok a) = written a
  answer written (err e) = failure e

  unfoldable pub respond : Tx A → (A → Response) → Handler
  respond m written s = let (r, s') = m s in (answer written r, s')

-- `decode`: what encoding/json refuses, unknown fields included, is a bad request
unfoldable pub decode {ℓ} : {R : Type ℓ} → Option R → Result R
decode none = err bad_request
decode (some req) = ok req
