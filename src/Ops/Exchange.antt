-- ===== src/Ops/Exchange.antt =====
-- internal/ops/fx.go and internal/ops/provision.go: conversions, and the accounts behind them.
use Prim.Native.String.{slice}
use bytedance_double_entry_l.Prelude.{
  ℕ, zero, suc, ◌/◌, ◌%◌, String, str_append, Bool, true, false, none, List, [], ◌∷◌, ltb,
  if◌then◌else◌, str_eq,
}
use bytedance_double_entry_l.Prelude.Int.{ℤ, pos, negsuc, leb_ℤ}
use bytedance_double_entry_l.Prelude.Word.{neg64}
use bytedance_double_entry_l.Errors.{non_positive, same_currency, converted_non_positive}
use bytedance_double_entry_l.Money.Currency.{Currency, Minor}
use bytedance_double_entry_l.Money.Rate.{Rate, convert}
use bytedance_double_entry_l.Ledger.Entry.{Entry, external, fx as fx_account, payout, fx as fx_kind}
use bytedance_double_entry_l.Store.Schema.{AccountRow}
use bytedance_double_entry_l.Store.Session.{Tx, pure, fail, lift, ◌>>=◌}
use bytedance_double_entry_l.Store.Accounts.{get_account, get_account_by_name, ensure_account}
use bytedance_double_entry_l.Ops.{Request, fx_req, leg, post_idem}

pub record FxResult : Type 0 where
  pub txn_id : ℕ
  pub replayed : Bool
  pub from_amount : Minor
  pub to_amount : Minor

unfoldable pub fx_account_name : Currency → String
fx_account_name c = str_append "fx:" c

-- fmt's `%d`; the fuel is more than the number
unfoldable pub digit_text : ℕ → String
digit_text d = slice "0123456789" d (suc d)

unfoldable pub number_text : ℕ → ℕ → String
unfolding digit_text
number_text zero n = ""
number_text (suc f) n =
    let front = number_text f (n / 10) in
    if ltb n 10 then digit_text n else str_append front (digit_text (n % 10))

unfoldable pub int_text : ℤ → String
unfolding number_text
int_text (pos n) = number_text (suc n) n
int_text (negsuc n) = str_append "-" (number_text (suc (suc n)) (suc n))

-- `fx %s->%s @ %d/%d`
unfoldable pub fx_memo : Currency → Currency → Rate → String
unfolding int_text
fx_memo a b rate = str_append "fx " (
    str_append a (
      str_append "->" (
        str_append b (
          str_append " @ " (str_append (int_text rate.num) (str_append "/" (int_text rate.den)))))))

unfoldable pub fx_entry :
    AccountRow → AccountRow → AccountRow → AccountRow → Minor → Minor → ℕ → ℕ → Rate → Entry
fx_entry from_acc to_acc fx_from fx_to from_amount to_amount from to rate = record {
  kind = fx_kind;
  memo = fx_memo from_acc.currency to_acc.currency rate;
  ref_txn_id = none;
  legs =
      leg from from_acc.currency (neg64 from_amount)
      ∷ leg fx_from.id from_acc.currency from_amount
      ∷ leg fx_to.id to_acc.currency (neg64 to_amount)
      ∷ leg to to_acc.currency to_amount
      ∷ [];
  pending_settle = false;
}

-- `world:`, `fx:` and `payout:` accounts of a currency
pub record Infra : Type 0 where
  pub world : ℕ
  pub fx : ℕ
  pub payout : ℕ

unfoldable pub ensure_currency : Currency → Tx Infra
ensure_currency c = do
  world ← ensure_account (str_append "world:" c) c external true
  desk ← ensure_account (fx_account_name c) c fx_account true
  rail ← ensure_account (str_append "payout:" c) c payout true
  pure (record { world = world.id; fx = desk.id; payout = rail.id })

-- `out[c] = Infra{...}`: a currency named twice keeps its place and gets the later value
unfoldable pub put : Currency → Infra → List (Currency × Infra) → List (Currency × Infra)
put c x [] = (c, x) ∷ []
put c x ((k, y) ∷ m) = let rest = put c x m in if str_eq k c then (k, x) ∷ m else (k, y) ∷ rest

unfoldable pub ensure_all : List Currency → List (Currency × Infra) → Tx (List (Currency × Infra))
ensure_all [] out = pure out
ensure_all (c ∷ cs) out = ensure_currency c >>= λ x. ensure_all cs (put c x out)

unfoldable pub ensure_infra : List Currency → Tx (List (Currency × Infra))
ensure_infra cs = ensure_all cs []

module _ (hash_request : Request → String) where
  -- the last part of ConvertFX: the desk's accounts, the entry, and the keyed posting
  unfoldable pub exchange :
      String → ℕ → ℕ → Minor → Minor → Rate → AccountRow → AccountRow → Tx FxResult
  exchange key from to from_amount to_amount rate from_acc to_acc = do
    fx_from ← get_account_by_name (fx_account_name from_acc.currency)
    fx_to ← get_account_by_name (fx_account_name to_acc.currency)
    r ←
        post_idem hash_request key
          (fx_entry from_acc to_acc fx_from fx_to from_amount to_amount from to rate)
          (fx_req "fx" from to from_amount rate.num rate.den)
    pure (record {
      txn_id = r.txn_id;
      replayed = r.replayed;
      from_amount = from_amount;
      to_amount = to_amount;
    })

  -- the amount is converted and must be positive
  unfoldable pub exchange_at : String → ℕ → ℕ → Minor → Rate → AccountRow → AccountRow → Tx FxResult
  exchange_at key from to from_amount rate from_acc to_acc = do
    to_amount ← lift (convert rate from_amount)
    if leb_ℤ to_amount (pos 0)
        then fail converted_non_positive
        else exchange key from to from_amount to_amount rate from_acc to_acc

  unfoldable pub convert_fx : String → ℕ → ℕ → Minor → Rate → Tx FxResult
  convert_fx key from to from_amount rate =
      if leb_ℤ from_amount (pos 0) then fail non_positive else (do
        from_acc ← get_account from
        to_acc ← get_account to
        if str_eq from_acc.currency to_acc.currency
            then fail same_currency
            else exchange_at key from to from_amount rate from_acc to_acc)
