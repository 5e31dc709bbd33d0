-- ===== src/Store/Books/Credited.antt =====
-- internal/store/postings.go: the rows of the accounts after a posting.
use bytedance_double_entry_l.Prelude.{
  ◌++◌, ℕ, ◌≡◌, refl, sym, ap, ◌∙◌, Bool-cases, inl, inr, List, [], ◌∷◌, map, All, All-imp, All-zip,
  total, ◌==◌, Option,
}
use bytedance_double_entry_l.Prelude.Int.{◌+ℤ◌}
use bytedance_double_entry_l.Prelude.Word.{wrap64, add64, wrap64-+ℤ_left}
use bytedance_double_entry_l.Money.Currency.{Minor}
use bytedance_double_entry_l.Ledger.Entry.{Leg, Entry}
use bytedance_double_entry_l.Store.Schema.{Db, AccountRow}
use bytedance_double_entry_l.Store.Session.{Session}
use bytedance_double_entry_l.Errors.{ok}
use bytedance_double_entry_l.Store.Posting.{PostResult, Guard, with_balance, post_entry_tx, txn_row}
use bytedance_double_entry_l.Store.Posting.Commit.{Posted, post_entry_tx-Posted}
use bytedance_double_entry_l.Store.Posting.Balances.{leg_to, final_row, id-final_row}
use bytedance_double_entry_l.Store.Books.{book, posted_to, IsDerived, IsCovered, IsConsistent}
use bytedance_double_entry_l.Store.Books.Post.{
  post-IsConsistent, posted_total, accounts_after, final_rows-IsDerived,
}

-- an account with its legs of an entry added to its balance, and every other column as it was
abbrev pub credited : List Leg → AccountRow → AccountRow
credited legs a = record a { balance = add64 a.balance (total (leg_to a.id) legs) }

abbrev at_balance : AccountRow → Minor → AccountRow
at_balance a b = record a { balance = b }

-- The UPDATEs write no column but the balance.
final_row-at_balance :
    (balances : List (ℕ × Minor)) (a : AccountRow)
    → final_row balances a ≡ at_balance a (final_row balances a).balance
final_row-at_balance [] a = refl
final_row-at_balance ((i, b) ∷ balances) a =
    final_row-at_balance balances (with_balance i b a)
    ∙ same_columns (final_row balances (with_balance i b a)).balance
  where
    same_columns : (x : Minor) → at_balance (with_balance i b a) x ≡ at_balance a x
    same_columns x = elim (Bool-cases (a.id == i)) [ inl same ↦ rw same | inr other ↦ rw other ]

pub map_eq :
    (f g : AccountRow → AccountRow) (rows : List AccountRow)
    → All (λ a. f a ≡ g a) rows
    → map f rows ≡ map g rows
map_eq f g [] h = refl
map_eq f g (a ∷ rows) h = λ i. h.0 i ∷ map_eq f g rows h.1 i

module _ {e : Entry} {guard : Option Guard} {db : Db} {r : PostResult} {db' : Db}
    (p : Posted e guard db r db') (h : IsConsistent db) where
  final_row-credited :
      (a : AccountRow)
      → IsDerived db'.postings (final_row r.balances a) × IsDerived db.postings a
      → final_row r.balances a ≡ credited e.legs a
  unfolding add64
  final_row-credited a (new, old) =
      let T = total (posted_to a.id) db.postings in
      let D = total (leg_to a.id) e.legs in
      final_row-at_balance r.balances a
      ∙ ap (at_balance a) (
          new
          ∙ ap (λ i. wrap64 (total (posted_to i) db'.postings)) (id-final_row r.balances a)
          ∙ ap wrap64 (posted_total p a.id)
          ∙ sym (wrap64-+ℤ_left T D)
          ∙ ap (λ b. wrap64 (b +ℤ D)) (sym old))

  -- A posting adds to every account its legs, and changes nothing else of it.
  pub posted-accounts : db'.accounts ≡ map (credited e.legs) db.accounts
  posted-accounts =
      accounts_after p h
      ∙ map_eq (final_row r.balances) (credited e.legs) db.accounts (
          All-imp final_row-credited db.accounts
            (All-zip _ _ db.accounts (final_rows-IsDerived p h) h.derived))

-- On consistent rows, a postEntryTx that succeeds adds to the balance of every account the sum of the
-- entry's legs on it, as int64, and changes no other column and no other account. An account that
-- may not be negative is not. The header is the one new transaction, with the id that is returned,
-- and the exact sums of the postings of each account change by its legs.
pub post_entry_tx-credits :
    (e : Entry) (guard : Option Guard) (s : Session) {r : PostResult} {s' : Session}
    → IsConsistent s.db
    → post_entry_tx e guard s ≡ (ok r, s')
    → (s'.db.accounts ≡ map (credited e.legs) s.db.accounts)
      × All IsCovered s'.db.accounts
      × (s'.db.transactions ≡ s.db.transactions ++ txn_row r.txn_id e ∷ [])
      × ((i : ℕ) → book s'.db i ≡ book s.db i +ℤ total (leg_to i) e.legs)
post_entry_tx-credits e guard s c h =
    let p = post_entry_tx-Posted e guard s h in
    (
      posted-accounts p c,
      (post-IsConsistent p c).covered,
      ap Db.transactions p.written
          ∙ ap (λ t. s.db.transactions ++ txn_row t e ∷ []) (sym p.numbered),
      posted_total p,
    )
