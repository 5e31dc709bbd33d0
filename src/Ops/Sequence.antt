-- ===== src/Ops/Sequence.antt =====
-- Requests to the service one after the other, each with its own answer from the database.
use bytedance_double_entry_l.Prelude.{ℕ, String, Bool, List, [], ◌∷◌, All}
use bytedance_double_entry_l.Prelude.Word.{InRange}
use bytedance_double_entry_l.Money.Currency.{Currency, Minor}
use bytedance_double_entry_l.Money.Rate.{Rate}
use bytedance_double_entry_l.Ledger.Entry.{AccountKind}
use bytedance_double_entry_l.Store.Session.{Session}
use bytedance_double_entry_l.Store.Schema.{Db}
use bytedance_double_entry_l.Store.Accounts.{create_account}
use bytedance_double_entry_l.Store.Books.Kept.{IsKept, create_account-kept}
use bytedance_double_entry_l.Store.Books.Sound.{IsSound, IsSound-IsKept}
use bytedance_double_entry_l.Store.Settlement.{run_settlement}
use bytedance_double_entry_l.Store.Settlement.Books.{run_settlement-kept}
use bytedance_double_entry_l.Ops.{Request, transfer, payment, refund}
use bytedance_double_entry_l.Ops.Exchange.{ensure_infra, convert_fx}
use bytedance_double_entry_l.Ops.Books.{
  ensure_infra-kept, transfer-kept, payment-kept, refund-kept, convert_fx-kept,
}

-- A call of the service, with its arguments; an idempotency key comes first.
pub data Call : Type 0 where
  open_account : String → Currency → AccountKind → Bool → Call
  provision : List Currency → Call
  send : String → ℕ → ℕ → Minor → Currency → Call
  pay : String → ℕ → ℕ → Minor → Currency → Call
  give_back : String → ℕ → Minor → Call
  exchange : String → ℕ → ℕ → Minor → Rate → Call
  settle : Call

-- The amount is an int64.
abbrev pub IsSized : Call → Type 0
IsSized (open_account name cur kind allow) = Unit {0}
IsSized (provision cs) = Unit {0}
IsSized (send key from to amount cur) = InRange amount
IsSized (pay key source merchant amount cur) = InRange amount
IsSized (give_back key i amount) = InRange amount
IsSized (exchange key from to amount rate) = InRange amount
IsSized settle = Unit {0}

module _ (hash_request : Request → String) where
  -- the session that a call leaves, whatever it returned
  unfoldable pub run_call : Call → Session → Session
  run_call (open_account name cur kind allow) s = (create_account name cur kind allow s).1
  run_call (provision cs) s = (ensure_infra cs s).1
  run_call (send key from to amount cur) s = (transfer hash_request key from to amount cur s).1
  run_call (pay key source merchant amount cur) s =
      (payment hash_request key source merchant amount cur s).1
  run_call (give_back key i amount) s = (refund hash_request key i amount s).1
  run_call (exchange key from to amount rate) s =
      (convert_fx hash_request key from to amount rate s).1
  run_call settle s = (run_settlement s).1

  unfoldable pub run_calls : List Call → Session → Session
  run_calls [] s = s
  run_calls (c ∷ cs) s = run_calls cs (run_call c s)

  module _ {κ} {P : Db → Type κ} (is_kept : IsKept P) where
    run_call-kept : (c : Call) (s : Session) → IsSized c → P s.db → P (run_call c s).db
    unfolding run_call
    run_call-kept (open_account name cur kind allow) s fits h =
        create_account-kept is_kept name cur kind allow s h
    run_call-kept (provision cs) s fits h = ensure_infra-kept is_kept cs s h
    run_call-kept (send key from to amount cur) s fits h =
        transfer-kept is_kept hash_request key amount fits s h from to cur
    run_call-kept (pay key source merchant amount cur) s fits h =
        payment-kept is_kept hash_request key amount fits s h source merchant cur
    run_call-kept (give_back key i amount) s fits h =
        refund-kept is_kept hash_request key amount fits s h i
    run_call-kept (exchange key from to amount rate) s fits h =
        convert_fx-kept is_kept hash_request key amount fits s h from to rate
    run_call-kept settle s fits h = run_settlement-kept is_kept s h

    -- Any calls in any order keep what the statements of the store keep.
    pub run_calls-kept :
        (cs : List Call) (s : Session) → All IsSized cs → P s.db → P (run_calls cs s).db
    unfolding run_calls
    run_calls-kept [] s fits h = h
    run_calls-kept (c ∷ cs) s fits h =
        run_calls-kept cs (run_call c s) fits.1 (run_call-kept c s fits.0 h)

  -- From sound books, any calls in any order, whatever faults the database answers with, leave
  -- sound books, if their amounts are int64 values: every cached balance is the sum of its account's
  -- postings as an int64, wrapped around, an account that may not be negative has no negative cached
  -- balance, and every transaction and every currency nets to exactly zero.
  pub run_calls-IsSound :
      (cs : List Call) (s : Session) → All IsSized cs → IsSound s.db → IsSound (run_calls cs s).db
  run_calls-IsSound = run_calls-kept IsSound-IsKept
