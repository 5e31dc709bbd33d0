-- ===== src/Api/Handlers.antt =====
-- internal/api/handlers.go: the handlers.
use bytedance_double_entry_l.Prelude.{
  ℕ, ◌+◌, ◌-◌, ◌*◌, ◌^◌, String, Bool, true, false, ◌||◌, Option, none, some, List, [], ◌∷◌, ltb,
  ◌==◌, if◌then◌else◌, str_eq,
}
use bytedance_double_entry_l.Prelude.Int.{ℤ, pos, neg}
use bytedance_double_entry_l.Prelude.Word.{word}
use bytedance_double_entry_l.Errors.{Result, ok, err, bad_request}
use bytedance_double_entry_l.Money.Currency.{Minor}
use bytedance_double_entry_l.Money.Text.{Text}
use bytedance_double_entry_l.Money.Major.{format_major}
use bytedance_double_entry_l.Ledger.Entry.{
  AccountKind, customer, merchant, external, fx, payout, other,
}
use bytedance_double_entry_l.Store.Schema.{AccountRow}
use bytedance_double_entry_l.Store.Session.{Tx, fail, lift, ◌>>=◌}
use bytedance_double_entry_l.Store.Mode.{IsolationMode}
use bytedance_double_entry_l.Store.Accounts.{
  LedgerLine, create_account, get_account, account_ledger,
}
use bytedance_double_entry_l.Store.Queries.{counts}
use bytedance_double_entry_l.Store.Settlement.{run_settlement}
use bytedance_double_entry_l.Ops.{OpResult, Request, transfer, payment, refund}
use bytedance_double_entry_l.Ops.Exchange.{FxResult, convert_fx}
use bytedance_double_entry_l.Settle.Reconcile.{ReconcileReport, reconcile}
use bytedance_double_entry_l.Api.Server.{
  Route, health, balance, ledger, settle, health_data, account_data, balance_data, ledger_data,
  op_data, fx_data, settlement_data, report_data, Response, success, Handler, respond, decode,
}

-- the JSON bodies
pub record CreateAccountReq : Type 0 where
  pub name : String
  pub currency : String
  pub kind : String
  pub allow_negative : Bool

pub record TransferReq : Type 0 where
  pub from : ℤ
  pub to : ℤ
  pub amount : ℤ
  pub currency : String

pub record PaymentReq : Type 0 where
  pub source : ℤ
  pub merchant : ℤ
  pub amount : ℤ
  pub currency : String

pub record RefundReq : Type 0 where
  pub payment_txn_id : ℤ
  pub amount : ℤ

pub record FxReq : Type 0 where
  pub from : ℤ
  pub to : ℤ
  pub from_amount : ℤ
  pub rate_num : ℤ
  pub rate_den : ℤ

-- The parts of an HTTP request that the handlers read: the header Idempotency-Key, the path's {id},
-- the query's `limit`, and the body.
pub record HttpRequest (Body : Type 0) : Type 0 where
  pub idem_key : String
  pub path_id : Text
  pub limit : Text
  pub body : Body

-- What encoding/json makes of a body for each request type, if it accepts it.
pub record Decoders (Body : Type 0) : Type 0 where
  pub create_account_req : Body → Option CreateAccountReq
  pub transfer_req : Body → Option TransferReq
  pub payment_req : Body → Option PaymentReq
  pub refund_req : Body → Option RefundReq
  pub fx_req : Body → Option FxReq

-- strconv: the digits behind the sign
unfoldable pub parse_digits : Text → ℕ → Option ℕ
parse_digits [] n = some n
parse_digits (c ∷ s) n =
    let rest = parse_digits s (n * 10 + (c - b'0')) in
    if ltb c b'0' || ltb b'9' c then none else rest

-- at least one digit, and a value that an int64 holds
unfoldable pub parse_magnitude : Bool → Text → Option ℤ
parse_magnitude is_neg [] = none
parse_magnitude is_neg (c ∷ s) = elim (parse_digits (c ∷ s) 0) [
  | none ↦ none
  | some n ↦
      if is_neg
      then (if ltb n (2 ^ 63 + 1) then some (neg (pos n)) else none)
      else if ltb n (2 ^ 63)
      then some (pos n)
      else none
]

-- strconv.ParseInt(s, 10, 64), and strconv.Atoi
unfoldable pub parse_int : Text → Option ℤ
parse_int [] = none
parse_int (c ∷ s) =
    if c == b'-'
    then parse_magnitude true s
    else if c == b'+'
    then parse_magnitude false s
    else parse_magnitude false (c ∷ s)

-- Row ids are natural numbers. A negative int64, which is the id of no row, stands as the number of
-- its 64 bits.
abbrev pub row_id : ℤ → ℕ
row_id i = word i

unfoldable pub path_id : Text → Result ℕ
path_id s = elim (parse_int s) [ none ↦ err bad_request | some i ↦ ok (row_id i) ]

-- a limit that is missing or no number is 100
unfoldable pub limit_of : Text → ℤ
limit_of [] = pos 100
limit_of (c ∷ s) = elim (parse_int (c ∷ s)) [ none ↦ pos 100 | some n ↦ n ]

unfoldable pub status_for : Bool → ℕ
status_for replayed = if replayed then 200 else 201

-- `ledger.AccountKind(req.Kind)`, where no kind is a customer
unfoldable pub account_kind : String → AccountKind
account_kind k =
    if str_eq k ""
    then customer
    else if str_eq k "customer"
    then customer
    else if str_eq k "merchant"
    then merchant
    else if str_eq k "external"
    then external
    else if str_eq k "fx"
    then fx
    else if str_eq k "payout"
    then payout
    else other k

unfoldable pub open_account : CreateAccountReq → Tx AccountRow
open_account req =
    if str_eq req.name "" || str_eq req.currency ""
    then fail bad_request
    else create_account req.name req.currency (account_kind req.kind) req.allow_negative

-- `major, _ := money.FormatMajor(...)`
abbrev text_or_empty : Result Text → Text
text_or_empty (ok t) = t
text_or_empty (err e) = []

unfoldable pub write_balance : AccountRow → Response
write_balance a = success 200 (balance_data a (text_or_empty (format_major a.currency a.balance)))

abbrev page_of : ℕ → List LedgerLine × Minor → Tx (ℕ × List LedgerLine × Minor)
page_of i (lines, b) = lift (ok (i, lines, b))

-- the lines and the balance, with the id for the answer
unfoldable pub read_ledger : Text → ℕ → Tx (ℕ × List LedgerLine × Minor)
read_ledger limit i = account_ledger i (limit_of limit) >>= page_of i

unfoldable pub write_ledger : ℕ × List LedgerLine × Minor → Response
write_ledger (i, lines, b) = success 200 (ledger_data i b lines)

unfoldable pub write_op : OpResult → Response
write_op r = success (status_for r.replayed) (op_data r)

unfoldable pub write_fx : FxResult → Response
write_fx r = success (status_for r.replayed) (fx_data r)

-- a report that is not OK is a conflict
unfoldable pub write_report : ReconcileReport → Response
write_report rep = record {
  status = if rep.is_ok then 200 else 409;
  envelope = record { success = rep.is_ok; data_of = report_data rep; error = none };
}

unfoldable pub handle_health : IsolationMode → Handler
handle_health mode = respond counts (λ n. success 200 (health_data mode n))

unfoldable pub handle_settle : Handler
handle_settle = respond run_settlement (λ r. success 200 (settlement_data r))

unfoldable pub handle_reconcile : Handler
handle_reconcile = respond reconcile write_report

module _ (hash_request : Request → String) {Body : Type 0} (d : Decoders Body) where
  unfoldable pub handle_create_account : HttpRequest Body → Handler
  handle_create_account r =
      respond (lift (decode (d.create_account_req r.body)) >>= open_account)
        (λ a. success 201 (account_data a))

  unfoldable pub handle_balance : HttpRequest Body → Handler
  handle_balance r = respond (lift (path_id r.path_id) >>= get_account) write_balance

  unfoldable pub handle_ledger : HttpRequest Body → Handler
  handle_ledger r = respond (lift (path_id r.path_id) >>= read_ledger r.limit) write_ledger

  abbrev run_transfer : String → TransferReq → Tx OpResult
  run_transfer key req =
      transfer hash_request key (row_id req.from) (row_id req.to) req.amount req.currency

  abbrev run_payment : String → PaymentReq → Tx OpResult
  run_payment key req =
      payment hash_request key (row_id req.source) (row_id req.merchant) req.amount req.currency

  abbrev run_refund : String → RefundReq → Tx OpResult
  run_refund key req = refund hash_request key (row_id req.payment_txn_id) req.amount

  abbrev run_fx : String → FxReq → Tx FxResult
  run_fx key req =
      convert_fx hash_request key (row_id req.from) (row_id req.to) req.from_amount
        (record { num = req.rate_num; den = req.rate_den })

  unfoldable pub handle_transfer : HttpRequest Body → Handler
  handle_transfer r =
      respond (lift (decode (d.transfer_req r.body)) >>= run_transfer r.idem_key) write_op

  unfoldable pub handle_payment : HttpRequest Body → Handler
  handle_payment r =
      respond (lift (decode (d.payment_req r.body)) >>= run_payment r.idem_key) write_op

  unfoldable pub handle_refund : HttpRequest Body → Handler
  handle_refund r = respond (lift (decode (d.refund_req r.body)) >>= run_refund r.idem_key) write_op

  unfoldable pub handle_fx : HttpRequest Body → Handler
  handle_fx r = respond (lift (decode (d.fx_req r.body)) >>= run_fx r.idem_key) write_fx

  -- the handlers that the ServeMux calls
  unfoldable pub handle : IsolationMode → Route → HttpRequest Body → Handler
  handle mode health r = handle_health mode
  handle mode Route.create_account r = handle_create_account r
  handle mode balance r = handle_balance r
  handle mode ledger r = handle_ledger r
  handle mode Route.transfer r = handle_transfer r
  handle mode Route.payment r = handle_payment r
  handle mode Route.refund r = handle_refund r
  handle mode Route.fx r = handle_fx r
  handle mode settle r = handle_settle
  handle mode Route.reconcile r = handle_reconcile
