-- ===== src/Store/Settlement/Paid.antt =====
-- internal/store/settlement.go: after a batch nothing is pending, and the next one pays nothing.
use bytedance_double_entry_l.Prelude.{
  ℕ, ◌≡◌, refl, sym, ap, subst, ◌∙◌, Bool, Bool-cases, true, false, ◌&&◌, ◌||◌, inl, inr, none,
  List, [], ◌∷◌, ◌++◌, map, length, All, All-imp, All-zip, any_row, any_row-append,
  any_row-where_rows, where_rows, arith, if◌then◌else◌, ◌==◌, ==_refl, false≢true, str_eq,
}
use bytedance_double_entry_l.Prelude.Int.{ℤ, pos}
use bytedance_double_entry_l.Prelude.Sort.{sort_by, any_row-sort_by}
use bytedance_double_entry_l.Errors.{Result, ok, ok_inj}
use bytedance_double_entry_l.Money.Currency.{Currency, Minor}
use bytedance_double_entry_l.Store.Schema.{Db, PostingRow}
use bytedance_double_entry_l.Store.Session.{Session, exec, ◌>>◌}
use bytedance_double_entry_l.Store.Session.Inversion.{
  >>=-ok, query_then-ok, exec-ok, fst_eq, snd_eq,
}
use bytedance_double_entry_l.Store.Posting.{PostResult, mem_id}
use bytedance_double_entry_l.Store.Settlement.{
  net_rows, scan_all, pay_nets, payout_entry, insert_batch, finalize_batch, pay_batch,
  compute_nets_locked, SettlementResult, is_pending, merchant_of, merchant_keys, sorted_keys,
  locked_pending, pending_ids, mark_settled, mark_all,
}
use bytedance_double_entry_l.Store.Posting.Commit.{Posted}
use bytedance_double_entry_l.Store.Settlement.Once.{
  IsIssued, ArePending, NonePending, post-IsIssued, post-ArePending, pay_nets-kept, marked-pending,
}

or_true : (a : Bool) {b : Bool} → b ≡ true → (a || b) ≡ true
or_true a h = ground arith

-- the account of a row
abbrev is_of : ℕ → ℕ × Currency → Bool
is_of i k = k.0 == i

-- a key that was seen stays
seen_stays :
    (i : ℕ) (ps : List PostingRow) (seen : List (ℕ × Currency))
    → any_row (is_of i) seen ≡ true
    → any_row (is_of i) (merchant_keys ps seen) ≡ true
unfolding merchant_keys
seen_stays i [] seen h = h
seen_stays i (p ∷ ps) seen h =
    elim (Bool-cases
      (any_row (λ (k : ℕ × Currency). (k.0 == p.account_id) && str_eq k.1 p.currency) seen)) [
        | inl old ↦ rw old (seen_stays i ps seen h)
        | inr new ↦ rw new (
            seen_stays i ps (seen ++ (p.account_id, p.currency) ∷ [])
              (any_row-append (is_of i) seen ((p.account_id, p.currency) ∷ []) ∙ rw h refl))
      ]

in_keys :
    (i : ℕ) (c : Currency) (seen : List (ℕ × Currency))
    → any_row (λ (k : ℕ × Currency). (k.0 == i) && str_eq k.1 c) seen ≡ true
    → any_row (is_of i) seen ≡ true
in_keys i c [] h = h
in_keys i c (k ∷ seen) h = ground (arith, in_keys i c seen)

-- every row's account has a key
keyed :
    (ps : List PostingRow) (seen : List (ℕ × Currency))
    → All (λ (p : PostingRow). any_row (is_of p.account_id) (merchant_keys ps seen) ≡ true) ps
unfolding merchant_keys
keyed [] seen = tt
keyed (p ∷ ps) seen = (seen_stays p.account_id ps next there, keyed ps next)
  where
    is_old : Bool
    is_old = any_row (λ (k : ℕ × Currency). (k.0 == p.account_id) && str_eq k.1 p.currency) seen

    next : List (ℕ × Currency)
    next = if is_old then seen else seen ++ (p.account_id, p.currency) ∷ []

    there : any_row (is_of p.account_id) next ≡ true
    there = elim (Bool-cases is_old) [
      | inl old ↦ rw old (in_keys p.account_id p.currency seen old)
      | inr new ↦ rw new (
          any_row-append (is_of p.account_id) seen ((p.account_id, p.currency) ∷ [])
          ∙ or_true (any_row (is_of p.account_id) seen) (rw (==_refl p.account_id) refl))
    ]

any_row-keys :
    (i : ℕ) (keys : List (ℕ × Currency)) → mem_id i (map merchant_of keys) ≡ any_row (is_of i) keys
any_row-keys i [] = refl
any_row-keys i (k ∷ keys) = ap (λ (b : Bool). (k.0 == i) || b) (any_row-keys i keys)

unfiltered {ℓ κ} :
    {A : Type ℓ} (P : A → Type κ) (q : A → Bool) (xs : List A)
    → All P (where_rows q xs)
    → All (λ x. q x ≡ true → P x) xs
unfiltered P q [] h = tt
unfiltered P q (x ∷ xs) h = elim (Bool-cases (q x)) [
  | inl kept ↦ let k = rw kept at h in (λ e. k.0, unfiltered P q xs k.1)
  | inr dropped ↦ (λ e. absurd (false≢true (sym dropped ∙ e)), unfiltered P q xs (rw dropped at h))
]

-- the merchants that the batch finds
abbrev pub candidates : Db → List ℕ
candidates db = map merchant_of (sorted_keys (where_rows (is_pending db) db.postings))

candidates_cover :
    (db : Db)
    → All
        (λ (p : PostingRow). is_pending db p ≡ true → mem_id p.account_id (candidates db) ≡ true)
        db.postings
unfolding sorted_keys
candidates_cover db = unfiltered _ (is_pending db) db.postings (
    All-imp (λ (p : PostingRow) h. found p h) _ (keyed (where_rows (is_pending db) db.postings) []))
  where
    found :
        (p : PostingRow)
        → any_row (is_of p.account_id) (merchant_keys (where_rows (is_pending db) db.postings) [])
          ≡ true
        → mem_id p.account_id (candidates db) ≡ true
    found p h =
        any_row-keys p.account_id
          (sort_by merchant_of (merchant_keys (where_rows (is_pending db) db.postings) []))
        ∙ any_row-sort_by merchant_of (is_of p.account_id) _
        ∙ h

mem-txns :
    (i : ℕ) (ps : List PostingRow)
    → mem_id i (map PostingRow.txn_id ps) ≡ any_row (λ (p : PostingRow). p.txn_id == i) ps
mem-txns i [] = refl
mem-txns i (p ∷ ps) = ap (λ (b : Bool). (p.txn_id == i) || b) (mem-txns i ps)

-- the ids that the batch marks are those of all that is pending
pending_ids-ArePending : (db : Db) → ArePending (pending_ids (candidates db) db) db
unfolding pending_ids locked_pending
pending_ids-ArePending db =
    All-imp
      {Q = λ (p : PostingRow).
        is_pending db p ≡ true → mem_id p.txn_id (pending_ids (candidates db) db) ≡ true}
      (λ (p : PostingRow) h pending. listed p (h.1 (rw (pending, h.0 pending) refl))) db.postings
      (All-zip _ _ db.postings (candidates_cover db) (
        any_row-where_rows (λ (x y : PostingRow). y.txn_id == x.txn_id) kept db.postings
          (λ x. ==_refl x.txn_id)))
  where
    kept : PostingRow → Bool
    kept p = is_pending db p && mem_id p.account_id (candidates db)

    listed :
        (p : PostingRow)
        → any_row (λ (y : PostingRow). y.txn_id == p.txn_id) (where_rows kept db.postings) ≡ true
        → mem_id p.txn_id (pending_ids (candidates db) db) ≡ true
    listed p h =
        any_row-sort_by (λ j. j) (λ j. j == p.txn_id)
          (map PostingRow.txn_id (where_rows kept db.postings))
        ∙ mem-txns p.txn_id (where_rows kept db.postings)
        ∙ h

-- the ids that compute_nets_locked returns for the candidates
pub nets-ArePending :
    (s : Session) {nets : List ((ℕ × Currency) × Minor)} {ids : List ℕ} {s' : Session}
    → compute_nets_locked (candidates s.db) s ≡ (ok (nets, ids), s')
    → (s'.db ≡ s.db) × ArePending ids s.db
unfolding compute_nets_locked
nets-ArePending s {nets} {ids} {s'} h = go (candidates s.db) refl h
  where
    go :
        (merchants : List ℕ)
        → candidates s.db ≡ merchants
        → compute_nets_locked merchants s ≡ (ok (nets, ids), s')
        → (s'.db ≡ s.db) × ArePending ids s.db
    go [] e k = (
      sym (ap Session.db (snd_eq k)),
      All-imp {Q = λ (p : PostingRow). is_pending s.db p ≡ true → mem_id p.txn_id ids ≡ true}
          (λ (p : PostingRow) inside pending.
            absurd (false≢true (subst (λ m. mem_id p.account_id m ≡ true) e (inside pending))))
          s.db.postings (candidates_cover s.db),
    )
    go (m ∷ merchants) e k =
        let (found, s₁, read₁, same₁, k₁) =
          query_then-ok (λ db. scan_all (net_rows (m ∷ merchants) db)) _ s k in
        let (listed, s₂, read₂, same₂, k₂) =
          query_then-ok (λ db. ok (pending_ids (m ∷ merchants) db)) _ s₁ k₁ in
        let ids_are : pending_ids (m ∷ merchants) s.db ≡ ids =
          ap (λ db. pending_ids (m ∷ merchants) db) (sym same₁)
          ∙ ok_inj read₂
          ∙ ap (λ (p : List ((ℕ × Currency) × Minor) × List ℕ). p.1) (ok_inj (fst_eq k₂)) in
        (
          sym (ap Session.db (snd_eq k₂)) ∙ same₂ ∙ same₁,
          subst (λ l. ArePending l s.db) (ap (λ ms. pending_ids ms s.db) e ∙ ids_are)
              (pending_ids-ArePending s.db),
        )

-- issued, and pending only within a list
pub record Within (ids : List ℕ) (db : Db) : Type 0 where
  pub issued : IsIssued db
  pub pending : ArePending ids db

payout-Within :
    (ids : List ℕ) (merchant payout : ℕ) (c : Currency) (net : Minor) (db : Db) (r : PostResult)
    (db' : Db)
    → Posted (payout_entry merchant payout c net) none db r db'
    → Within ids db
    → Within ids db'
unfolding payout_entry
payout-Within ids merchant payout c net db r db' p h = record {
  issued = post-IsIssued p h.issued;
  pending = post-ArePending (payout_entry merchant payout c net) refl p h.issued ids h.pending;
}

same_postings :
    (batch : ℕ) (ids : List ℕ) (db : Db) → db.postings ≡ (mark_settled batch ids db).1.postings
unfolding mark_settled
same_postings batch ids db = refl

marked-NonePending :
    (batch : ℕ) (ids : List ℕ) (db : Db)
    → ArePending ids db
    → NonePending (mark_settled batch ids db).1
marked-NonePending batch ids db all = renamed (
    All-imp {Q = λ (q : PostingRow). is_pending (mark_settled batch ids db).1 q ≡ false}
      (λ (q : PostingRow) k. marked-pending batch ids db q k) db.postings all)
  where
    renamed :
        All (λ (q : PostingRow). is_pending (mark_settled batch ids db).1 q ≡ false) db.postings
        → NonePending (mark_settled batch ids db).1
    renamed h =
        subst
          (λ ps. All (λ (q : PostingRow). is_pending (mark_settled batch ids db).1 q ≡ false) ps)
          (same_postings batch ids db) h

mark_all-NonePending :
    (batch : ℕ) (ids : List ℕ) (s : Session) {u : Unit {0}} {s' : Session}
    → mark_all batch ids s ≡ (ok u, s')
    → ArePending ids s.db
    → NonePending s'.db
mark_all-NonePending batch [] s h are = subst NonePending (ap Session.db (snd_eq h)) (
    All-imp {Q = λ (p : PostingRow). is_pending s.db p ≡ false}
      (λ (p : PostingRow) never. not_true (is_pending s.db p) never) s.db.postings are)
  where
    not_true : (b : Bool) → (b ≡ true → false ≡ true) → b ≡ false
    not_true true never = absurd (false≢true (never refl))
    not_true false never = refl
mark_all-NonePending batch (i ∷ ids) s {s' = s'} h are =
    subst NonePending
      (ap (λ (p : Result (Unit {0}) × Db). p.1) (exec-ok (mark_settled batch (i ∷ ids)) s h))
      (marked-NonePending batch (i ∷ ids) s.db are)

finalized-NonePending :
    (batch count : ℕ) (sum : ℤ) (db : Db)
    → NonePending db
    → NonePending (finalize_batch batch count sum db).1
unfolding finalize_batch is_pending
finalized-NonePending batch count sum db h = h

inserted-Within : (ids : List ℕ) (db : Db) → Within ids db → Within ids (insert_batch db).1
unfolding insert_batch is_pending
inserted-Within ids db h = record {
  issued = record { transactions = h.issued.transactions; postings = h.issued.postings };
  pending = h.pending;
}

pub pay_batch-NonePending :
    (payouts : List (Currency × ℕ)) (nets : List ((ℕ × Currency) × Minor)) (ids : List ℕ)
    (s : Session) {r : SettlementResult} {s' : Session}
    → pay_batch payouts (nets, ids) s ≡ (ok r, s')
    → Within ids s.db
    → NonePending s'.db
unfolding pay_batch ◌>>◌
pay_batch-NonePending payouts nets ids s h within =
    let (batch, s₁, inserting, h₁) = >>=-ok (exec insert_batch) _ s h in
    let (paid, s₂, paying, h₂) = >>=-ok (pay_nets payouts nets [] (pos 0)) _ s₁ h₁ in
    let (marked, s₃, marking, h₃) = >>=-ok (mark_all batch ids) _ s₂ h₂ in
    let (done, s₄, finishing, h₄) =
      >>=-ok (exec (finalize_batch batch (length ids) paid.1)) _ s₃ h₃ in
    let before : Within ids s₁.db =
      subst (Within ids) (ap (λ (p : Result ℕ × Db). p.1) (exec-ok insert_batch s inserting))
        (inserted-Within ids s.db within) in
    let after : Within ids s₂.db =
      pay_nets-kept (Within ids) (payout-Within ids) payouts nets [] (pos 0) s₁ paying before in
    subst NonePending
      (ap (λ (p : Result (Unit {0}) × Db). p.1)
          (exec-ok (finalize_batch batch (length ids) paid.1) s₃ finishing)
        ∙ ap Session.db (snd_eq h₄))
      (finalized-NonePending batch (length ids) paid.1 s₃.db
        (mark_all-NonePending batch ids s₂ marking after.pending))
