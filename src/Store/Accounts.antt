-- ===== src/Store/Accounts.antt =====
-- internal/store/accounts.go: creating and reading accounts.
pub mod Books
use bytedance_double_entry_l.Prelude.{
  ℕ, suc, String, Bool, true, false, ◌||◌, Option, none, some, List, [], ◌∷◌, ◌++◌, find_row,
  any_row, where_rows, take, reverse, ◌==◌, if◌then◌else◌, str_eq,
}
use bytedance_double_entry_l.Prelude.Sort.{sort_by}
use bytedance_double_entry_l.Prelude.Int.{ℤ, pos, pos_part, leb_ℤ, ltb_ℤ}
use bytedance_double_entry_l.Errors.{
  Result, ok, err, name_required, unknown_currency, unique_violation, account_not_found,
}
use bytedance_double_entry_l.Money.Currency.{Currency, Minor, is_supported}
use bytedance_double_entry_l.Ledger.Entry.{AccountKind, TxnKind}
use bytedance_double_entry_l.Store.Schema.{Db, AccountRow, TxnRow, PostingRow}
use bytedance_double_entry_l.Store.Session.{Tx, query, auto_exec, fail, pure, ◌>>=◌, ◌>>◌}

abbrev pub new_account : ℕ → String → Currency → AccountKind → Bool → AccountRow
new_account i name cur kind allow = record {
  id = i;
  name = name;
  currency = cur;
  kind = kind;
  allow_negative = allow;
  balance = pos 0;
}

abbrev pub add_account : String → Currency → AccountKind → Bool → Db → Db
add_account name cur kind allow db = record db {
  accounts = db.accounts ++ new_account db.account_seq name cur kind allow ∷ [];
  account_seq = suc db.account_seq;
}

-- INSERT INTO accounts; the name is UNIQUE, and a refused row has used its id up
unfoldable pub insert_account : String → Currency → AccountKind → Bool → Db → Result AccountRow × Db
insert_account name cur kind allow db =
    if any_row (λ (a : AccountRow). str_eq a.name name) db.accounts
    then (err unique_violation, record db { account_seq = suc db.account_seq })
    else (ok (new_account db.account_seq name cur kind allow), add_account name cur kind allow db)

unfoldable pub create_account : String → Currency → AccountKind → Bool → Tx AccountRow
create_account name cur kind allow =
    if str_eq name ""
    then fail name_required
    else if is_supported cur
    then auto_exec (insert_account name cur kind allow)
    else fail unknown_currency

-- INSERT ... ON CONFLICT (name) DO NOTHING
unfoldable pub insert_if_absent :
    String → Currency → AccountKind → Bool → Db → Result (Unit {0}) × Db
insert_if_absent name cur kind allow db =
    if any_row (λ (a : AccountRow). str_eq a.name name) db.accounts
    then (ok tt, record db { account_seq = suc db.account_seq })
    else (ok tt, add_account name cur kind allow db)

-- `scanAccount`: pgx.ErrNoRows becomes ErrAccountNotFound
unfoldable pub scan_account : Option AccountRow → Result AccountRow
scan_account none = err account_not_found
scan_account (some a) = ok a

unfoldable pub get_account : ℕ → Tx AccountRow
unfolding scan_account
get_account i = query (λ db. scan_account (find_row (λ (a : AccountRow). a.id == i) db.accounts))

unfoldable pub get_account_by_name : String → Tx AccountRow
unfolding scan_account
get_account_by_name name =
    query (λ db. scan_account (find_row (λ (a : AccountRow). str_eq a.name name) db.accounts))

unfoldable pub ensure_account : String → Currency → AccountKind → Bool → Tx AccountRow
ensure_account name cur kind allow =
    if is_supported cur
    then auto_exec (insert_if_absent name cur kind allow) >> get_account_by_name name
    else fail unknown_currency

pub record LedgerLine : Type 0 where
  pub posting_id : ℕ
  pub txn_id : ℕ
  pub kind : TxnKind
  pub currency : Currency
  pub amount : Minor

abbrev ledger_line : PostingRow → TxnKind → LedgerLine
ledger_line p kind = record {
  posting_id = p.id;
  txn_id = p.txn_id;
  kind = kind;
  currency = p.currency;
  amount = p.amount;
}

-- postings p JOIN transactions t ON t.id = p.txn_id
unfoldable pub join_lines : List TxnRow → List PostingRow → List LedgerLine
join_lines txns [] = []
join_lines txns (p ∷ ps) =
    let rest = join_lines txns ps in
    elim (find_row (λ (t : TxnRow). t.id == p.txn_id) txns) [
      | none ↦ rest
      | some t ↦ ledger_line p t.kind ∷ rest
    ]

-- a limit outside 1 ... 1000 is 100
unfoldable pub ledger_limit : ℤ → ℕ
ledger_limit limit = if leb_ℤ limit (pos 0) || ltb_ℤ (pos 1000) limit then 100 else pos_part limit

-- WHERE p.account_id = $1 ORDER BY p.id DESC LIMIT $2
unfoldable pub account_lines : ℕ → ℕ → Db → List LedgerLine
unfolding join_lines
account_lines i limit db = take limit (
    reverse (
      sort_by LedgerLine.posting_id (
        join_lines db.transactions
          (where_rows (λ (p : PostingRow). p.account_id == i) db.postings))))

unfoldable pub account_ledger : ℕ → ℤ → Tx (List LedgerLine × Minor)
unfolding account_lines ledger_limit
account_ledger i limit = do
  acc ← get_account i
  lines ← query (λ db. ok (account_lines i (ledger_limit limit) db))
  pure (lines, acc.balance)
