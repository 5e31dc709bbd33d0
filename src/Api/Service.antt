-- ===== src/Api/Service.antt =====
-- The server of internal/api under a sequence of HTTP requests.
use bytedance_double_entry_l.Prelude.{
  inr, inl, ◌||◌, str_eq, Bool-cases, ◌≡◌, ap, String, Option, none, some, List, [], ◌∷◌,
}
use bytedance_double_entry_l.Prelude.Word.{InRange}
use bytedance_double_entry_l.Errors.{ok, err-ne-ok, ok_inj}
use bytedance_double_entry_l.Store.Schema.{Db, SameRows-refl}
use bytedance_double_entry_l.Store.Session.{Session, Tx, lift, ◌>>=◌}
use bytedance_double_entry_l.Store.Session.Inversion.{fst_eq}
use bytedance_double_entry_l.Store.Session.Keeps.{>>=-keeps}
use bytedance_double_entry_l.Store.Mode.{IsolationMode}
use bytedance_double_entry_l.Store.Books.Journal.{Appended, Appended-refl, Appended-IsKept}
use bytedance_double_entry_l.Store.Books.Kept.{IsKept, create_account-kept}
use bytedance_double_entry_l.Store.Books.Sound.{IsSound, IsSound-IsKept}
use bytedance_double_entry_l.Store.Settlement.Books.{run_settlement-kept}
use bytedance_double_entry_l.Ops.{Request}
use bytedance_double_entry_l.Ops.Books.{transfer-kept, payment-kept, refund-kept, convert_fx-kept}
use bytedance_double_entry_l.Api.Server.{Route, respond, decode}
use bytedance_double_entry_l.Api.Handlers.{
  path_id, read_ledger, handle_fx, handle_refund, handle_payment, handle_transfer, handle_ledger,
  handle_balance, handle_create_account, handle_reconcile, handle_settle, handle_health,
  HttpRequest, Decoders, TransferReq, PaymentReq, RefundReq, FxReq, CreateAccountReq, open_account,
  handle,
}
use bytedance_double_entry_l.Api.Outcome.{IsReading, >>=-IsReading}
use bytedance_double_entry_l.Api.Clean.{
  get_account-IsReading, account_ledger-IsReading, reconcile-IsReading, counts-IsReading,
}
use bytedance_double_entry_l.Store.Queries.{counts}
use bytedance_double_entry_l.Store.Accounts.{get_account}
use bytedance_double_entry_l.Settle.Reconcile.{reconcile}

-- encoding/json fills an int64 field with an int64 value only.
pub record HasSizedAmounts {Body : Type 0} (d : Decoders Body) : Type 0 where
  pub transfer_amount :
      (b : Body) (req : TransferReq) → d.transfer_req b ≡ some req → InRange req.amount
  pub payment_amount :
      (b : Body) (req : PaymentReq) → d.payment_req b ≡ some req → InRange req.amount
  pub refund_amount : (b : Body) (req : RefundReq) → d.refund_req b ≡ some req → InRange req.amount
  pub fx_amount : (b : Body) (req : FxReq) → d.fx_req b ≡ some req → InRange req.from_amount

decode-ok : {R : Type 0} (o : Option R) (req : R) → decode o ≡ ok req → o ≡ some req
unfolding decode
decode-ok none req h = absurd (err-ne-ok h)
decode-ok (some x) req h = ap some (ok_inj h)

module _ {κ} {P : Db → Type κ} (is_kept : IsKept P) where
  open_account-kept : (req : CreateAccountReq) (s : Session) → P s.db → P (open_account req s).1.db
  unfolding open_account
  open_account-kept req s h = elim (Bool-cases (str_eq req.name "" || str_eq req.currency "")) [
    | inl refused ↦ rw refused h
    | inr complete ↦
        rw complete (create_account-kept is_kept req.name req.currency _ req.allow_negative s h)
  ]

  reading-kept : {A : Type 0} (m : Tx A) → IsReading m → (s : Session) → P s.db → P (m s).1.db
  reading-kept m reading s = is_kept.rows s.db (m s).1.db (reading s)

  -- a decoded request, and what runs on it
  decoded-kept :
      {A R : Type 0} (o : Option R) (run : R → Tx A)
      → ((req : R) → o ≡ some req → (t : Session) → P t.db → P (run req t).1.db)
      → (s : Session) → P s.db
      → P ((lift (decode o) >>= run) s).1.db
  decoded-kept o run keeps s h =
      >>=-keeps P (lift (decode o)) run s h
        (λ req t e k. keeps req (decode-ok o req (fst_eq e)) t k)

module _ (hash_request : Request → String) {Body : Type 0} (d : Decoders Body)
    (mode : IsolationMode) where
  -- the session that the requests leave
  unfoldable pub serve : List (Route × HttpRequest Body) → Session → Session
  serve [] s = s
  serve ((route, r) ∷ rest) s = serve rest (handle hash_request d mode route r s).1

  module _ {κ} {P : Db → Type κ} (is_kept : IsKept P) where
    handle-kept :
        HasSizedAmounts d
        → (route : Route) (r : HttpRequest Body) (s : Session) → P s.db
        → P (handle hash_request d mode route r s).1.db
    unfolding handle handle_health handle_settle handle_reconcile handle_create_account
        handle_balance handle_ledger handle_transfer handle_payment handle_refund handle_fx
        read_ledger respond
    handle-kept sized Route.health r s h = reading-kept is_kept counts counts-IsReading s h
    handle-kept sized Route.create_account r s h =
        decoded-kept is_kept (d.create_account_req r.body) open_account
          (λ req e t k. open_account-kept is_kept req t k) s h
    handle-kept sized Route.balance r s h =
        reading-kept is_kept (lift (path_id r.path_id) >>= get_account)
          (>>=-IsReading (lift (path_id r.path_id)) _ (λ t. SameRows-refl t.db)
            get_account-IsReading)
          s h
    handle-kept sized Route.ledger r s h =
        reading-kept is_kept (lift (path_id r.path_id) >>= read_ledger r.limit)
          (>>=-IsReading (lift (path_id r.path_id)) _ (λ t. SameRows-refl t.db)
            (λ i. >>=-IsReading _ _ (account_ledger-IsReading i _) (λ p t. SameRows-refl t.db)))
          s h
    handle-kept sized Route.transfer r s h =
        decoded-kept is_kept (d.transfer_req r.body) _
          (λ req e t k.
            transfer-kept is_kept hash_request r.idem_key req.amount
              (sized.transfer_amount r.body req e) t k _ _ _)
          s h
    handle-kept sized Route.payment r s h =
        decoded-kept is_kept (d.payment_req r.body) _
          (λ req e t k.
            payment-kept is_kept hash_request r.idem_key req.amount
              (sized.payment_amount r.body req e) t k _ _ _)
          s h
    handle-kept sized Route.refund r s h =
        decoded-kept is_kept (d.refund_req r.body) _
          (λ req e t k.
            refund-kept is_kept hash_request r.idem_key req.amount
              (sized.refund_amount r.body req e) t k _)
          s h
    handle-kept sized Route.fx r s h =
        decoded-kept is_kept (d.fx_req r.body) _
          (λ req e t k.
            convert_fx-kept is_kept hash_request r.idem_key req.from_amount
              (sized.fx_amount r.body req e) t k _ _ _)
          s h
    handle-kept sized Route.settle r s h = run_settlement-kept is_kept s h
    handle-kept sized Route.reconcile r s h = reading-kept is_kept reconcile reconcile-IsReading s h

    -- Any HTTP requests in any order keep what the statements of the store keep.
    pub serve-kept :
        HasSizedAmounts d
        → (requests : List (Route × HttpRequest Body)) (s : Session) → P s.db
        → P (serve requests s).db
    unfolding serve
    serve-kept sized [] s h = h
    serve-kept sized ((route, r) ∷ rest) s h =
        serve-kept sized rest (handle hash_request d mode route r s).1
          (handle-kept sized route r s h)

  -- From sound books, any HTTP requests in any order, whatever faults the database answers with,
  -- leave sound books, if the decoded amounts are int64 values.
  pub serve-IsSound :
      HasSizedAmounts d
      → (requests : List (Route × HttpRequest Body)) (s : Session) → IsSound s.db
      → IsSound (serve requests s).db
  serve-IsSound = serve-kept IsSound-IsKept

  -- Whatever requests come and whatever fails, postings, transactions and accounts are only added:
  -- the rows that are there stay, first and in their order, and keep every column but a
  -- transaction's settlement state and an account's balance.
  pub serve-Appended :
      HasSizedAmounts d
      → (requests : List (Route × HttpRequest Body)) (s : Session)
      → Appended s.db (serve requests s).db
  serve-Appended sized requests s =
      serve-kept (Appended-IsKept s.db) sized requests s (Appended-refl s.db)
