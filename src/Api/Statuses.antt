-- ===== src/Api/Statuses.antt =====
-- internal/api: what the status of a response says of the rows, for every route.
use bytedance_double_entry_l.Prelude.{
  ℕ, ◌≡◌, ◌<◌, ◌≤◌, refl, sym, ◌∙◌, String, Bool, true, false, false≢true, inl, inr, [], ◌∷◌, ◌++◌,
  arith,
}
use bytedance_double_entry_l.Errors.{Error, Result, ok, err}
use bytedance_double_entry_l.Store.Schema.{TxnRow, SameRows, SameRows-refl}
use bytedance_double_entry_l.Store.Session.{Session, Tx, lift, ◌>>=◌}
use bytedance_double_entry_l.Store.Mode.{IsolationMode}
use bytedance_double_entry_l.Ops.{Request, OpResult}
use bytedance_double_entry_l.Ops.Exchange.{FxResult}
use bytedance_double_entry_l.Api.Server.{
  Route, Response, Handler, respond, answer, failure, success, fail_status, decode,
}
use bytedance_double_entry_l.Api.Handlers.{
  HttpRequest, Decoders, open_account, path_id, read_ledger, status_for, write_op, write_fx,
  write_balance, write_ledger, handle_health, handle_settle, handle_reconcile,
  handle_create_account, handle_balance, handle_ledger, handle_transfer, handle_payment,
  handle_refund, handle_fx, handle,
}
use bytedance_double_entry_l.Api.Outcome.{
  IsReading, IsClean, IsPosting, >>=-IsReading, >>=-IsClean, >>=-IsPosting,
}
use bytedance_double_entry_l.Api.Clean.{
  get_account-IsReading, account_ledger-IsReading, reconcile-IsReading, counts-IsReading,
  open_account-IsClean, transfer-IsClean, payment-IsClean, refund-IsClean, convert_fx-IsClean,
  run_settlement-IsClean,
}
use bytedance_double_entry_l.Api.Posts.{
  transfer-IsPosting, payment-IsPosting, refund-IsPosting, convert_fx-IsPosting,
}

fail_status-error : (e : Error) → 400 ≤ fail_status e
unfolding fail_status
fail_status-error e = ground arith

status_for-success : (b : Bool) → status_for b < 400
unfolding status_for
status_for-success b = ground arith

-- A status of the 4xx family comes with no change of a row.
abbrev Unharmed : Handler → Type 0
Unharmed h = (s : Session) → 400 ≤ (h s).0.status → (h s).0.status < 500 → SameRows s.db (h s).1.db

-- 201 comes with one more transaction, 200 with no change of a row.
abbrev Tells : Handler → Type 0
Tells h =
    (s : Session)
    → ((h s).0.status ≡ 201
        → (t : TxnRow) × ((h s).1.db.transactions ≡ s.db.transactions ++ t ∷ []))
      × ((h s).0.status ≡ 200 → SameRows s.db (h s).1.db)

module _ {ℓ} {A : Type ℓ} (m : Tx A) (written : A → Response) where
  reading-Unharmed : IsReading m → Unharmed (respond m written)
  unfolding respond
  reading-Unharmed reading s low high = reading s

  clean-Unharmed : IsClean m → ((a : A) → (written a).status < 400) → Unharmed (respond m written)
  unfolding respond failure
  clean-Unharmed clean fine s low high = go (m s) refl low high
    where
      go :
          (p : Result A × Session)
          → m s ≡ p
          → 400 ≤ (answer written p.0).status
          → (answer written p.0).status < 500
          → SameRows s.db p.1.db
      go (ok a, t) run low high = absurd (omega (arith, fine a))
      go (err e, t) run low high = elim (clean s e t run) [
        | inl same ↦ same
        | inr internal ↦ absurd (omega arith)
      ]

  posting-Tells :
      (replayed : A → Bool)
      → IsPosting replayed m
      → ((a : A) → (written a).status ≡ status_for (replayed a))
      → Tells (respond m written)
  unfolding respond failure status_for
  posting-Tells replayed posting marked s = go (m s) refl
    where
      go :
          (p : Result A × Session)
          → m s ≡ p
          → ((answer written p.0).status ≡ 201
              → (t : TxnRow) × (p.1.db.transactions ≡ s.db.transactions ++ t ∷ []))
            × ((answer written p.0).status ≡ 200 → SameRows s.db p.1.db)
      go (err e, t) run = (
        λ is. absurd (omega (arith, fail_status-error e)),
        λ is. absurd (omega (arith, fail_status-error e)),
      )
      go (ok a, t) run = elim (posting s a t run) [
        | inl (again, same) ↦
            (λ is. absurd (not_created (sym (marked a ∙ rw again refl) ∙ is)), λ is. same)
        | inr (new, row, added) ↦
            (λ is. (row, added), λ is. absurd (not_created (sym is ∙ marked a ∙ rw new refl)))
      ]
        where
          not_created : ◌≡◌ {A = ℕ} 200 201 → ⊥
          not_created e = omega arith

abbrev pub is_posting : Route → Bool
is_posting Route.transfer = true
is_posting Route.payment = true
is_posting Route.refund = true
is_posting Route.fx = true
is_posting _ = false

module _ (hash_request : Request → String) {Body : Type 0} (d : Decoders Body)
    (mode : IsolationMode) (r : HttpRequest Body) where
  -- Whatever request comes and whatever fails, a response with a status of the 4xx family means that
  -- no row has changed.
  pub client_error_unchanged :
      (route : Route) (s : Session)
      → let (response, s') = handle hash_request d mode route r s in
        400 ≤ response.status → response.status < 500 → SameRows s.db s'.db
  unfolding handle handle_health handle_settle handle_reconcile handle_create_account handle_balance
      handle_ledger handle_transfer handle_payment handle_refund handle_fx read_ledger write_op
      write_fx success
  client_error_unchanged Route.health s = reading-Unharmed _ _ counts-IsReading s
  client_error_unchanged Route.create_account s =
      clean-Unharmed (lift (decode (d.create_account_req r.body)) >>= open_account) _
        (>>=-IsClean (lift _) open_account (λ t. SameRows-refl t.db) open_account-IsClean)
        (λ a. omega arith) s
  client_error_unchanged Route.balance s =
      reading-Unharmed _ write_balance
        (>>=-IsReading (lift (path_id r.path_id)) _ (λ t. SameRows-refl t.db) get_account-IsReading)
        s
  client_error_unchanged Route.ledger s =
      reading-Unharmed _ write_ledger
        (>>=-IsReading (lift (path_id r.path_id)) _ (λ t. SameRows-refl t.db)
          (λ i. >>=-IsReading _ _ (account_ledger-IsReading i _) (λ p t. SameRows-refl t.db)))
        s
  client_error_unchanged Route.transfer s =
      clean-Unharmed _ write_op
        (>>=-IsClean (lift (decode (d.transfer_req r.body))) _ (λ t. SameRows-refl t.db)
          (λ req. transfer-IsClean hash_request r.idem_key _ _ _ _))
        (λ a. status_for-success a.replayed) s
  client_error_unchanged Route.payment s =
      clean-Unharmed _ write_op
        (>>=-IsClean (lift (decode (d.payment_req r.body))) _ (λ t. SameRows-refl t.db)
          (λ req. payment-IsClean hash_request r.idem_key _ _ _ _))
        (λ a. status_for-success a.replayed) s
  client_error_unchanged Route.refund s =
      clean-Unharmed _ write_op
        (>>=-IsClean (lift (decode (d.refund_req r.body))) _ (λ t. SameRows-refl t.db)
          (λ req. refund-IsClean hash_request r.idem_key _ _))
        (λ a. status_for-success a.replayed) s
  client_error_unchanged Route.fx s =
      clean-Unharmed _ write_fx
        (>>=-IsClean (lift (decode (d.fx_req r.body))) _ (λ t. SameRows-refl t.db)
          (λ req. convert_fx-IsClean hash_request r.idem_key _ _ _ _))
        (λ a. status_for-success a.replayed) s
  client_error_unchanged Route.settle s =
      clean-Unharmed _ _ run_settlement-IsClean (λ a. omega arith) s
  client_error_unchanged Route.reconcile s = reading-Unharmed _ _ reconcile-IsReading s

  -- On the routes that post, 201 means that exactly one transaction was added, and 200 that none was
  -- and no other row has changed: the result is a replay.
  pub posting_status :
      (route : Route) (s : Session)
      → is_posting route ≡ true
      → let (response, s') = handle hash_request d mode route r s in
        (response.status ≡ 201 → (t : TxnRow) × (s'.db.transactions ≡ s.db.transactions ++ t ∷ []))
        × (response.status ≡ 200 → SameRows s.db s'.db)
  unfolding handle handle_transfer handle_payment handle_refund handle_fx write_op write_fx success
  posting_status Route.transfer s is =
      posting-Tells _ write_op OpResult.replayed
        (>>=-IsPosting (lift (decode (d.transfer_req r.body))) _ OpResult.replayed
          (λ t. SameRows-refl t.db) (λ req. transfer-IsPosting hash_request r.idem_key _ _ _ _))
        (λ a. refl) s
  posting_status Route.payment s is =
      posting-Tells _ write_op OpResult.replayed
        (>>=-IsPosting (lift (decode (d.payment_req r.body))) _ OpResult.replayed
          (λ t. SameRows-refl t.db) (λ req. payment-IsPosting hash_request r.idem_key _ _ _ _))
        (λ a. refl) s
  posting_status Route.refund s is =
      posting-Tells _ write_op OpResult.replayed
        (>>=-IsPosting (lift (decode (d.refund_req r.body))) _ OpResult.replayed
          (λ t. SameRows-refl t.db) (λ req. refund-IsPosting hash_request r.idem_key _ _))
        (λ a. refl) s
  posting_status Route.fx s is =
      posting-Tells _ write_fx FxResult.replayed
        (>>=-IsPosting (lift (decode (d.fx_req r.body))) _ FxResult.replayed
          (λ t. SameRows-refl t.db) (λ req. convert_fx-IsPosting hash_request r.idem_key _ _ _ _))
        (λ a. refl) s
  posting_status Route.health s is = absurd (false≢true is)
  posting_status Route.create_account s is = absurd (false≢true is)
  posting_status Route.balance s is = absurd (false≢true is)
  posting_status Route.ledger s is = absurd (false≢true is)
  posting_status Route.settle s is = absurd (false≢true is)
  posting_status Route.reconcile s is = absurd (false≢true is)
