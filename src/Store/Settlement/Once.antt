-- ===== src/Store/Settlement/Once.antt =====
-- internal/store/settlement.go: a batch settles every payment that is pending.
use bytedance_double_entry_l.Prelude.{
  All-zip, ℕ, suc, ◌≡◌, ◌<◌, refl, sym, ap, subst, ◌∙◌, Bool, Bool-cases, true, false, ◌&&◌, ◌||◌,
  inl, inr, Option, none, List, [], ◌∷◌, ◌++◌, map, All, All-imp, All-append, any_row,
  any_row-append, arith, ◌==◌, ==_iff, false≢true,
}
use bytedance_double_entry_l.Prelude.Int.{ℤ, pos, ltb_ℤ, leb_ℤ}
use bytedance_double_entry_l.Errors.{ok}
use bytedance_double_entry_l.Money.Currency.{Currency, Minor}
use bytedance_double_entry_l.Ledger.Entry.{Leg, Entry}
use bytedance_double_entry_l.Store.Schema.{Db, TxnRow, PostingRow}
use bytedance_double_entry_l.Store.Session.{Session}
use bytedance_double_entry_l.Store.Session.Inversion.{>>=-ok, snd_eq}
use bytedance_double_entry_l.Store.Posting.{PostResult, Guard, mem_id, txn_row, post_entry_tx}
use bytedance_double_entry_l.Store.Posting.Commit.{
  post_rows, Posted, posting_rows, post_entry_tx-Posted,
}
use bytedance_double_entry_l.Store.Settlement.{
  add64, payout_of, pay_nets, payout_entry, is_pending_txn, is_pending, settle_txn, mark_settled,
}

-- Transactions, and the postings of transactions, have ids that were given out.
pub record IsIssued (db : Db) : Type 0 where
  pub transactions : All (λ (t : TxnRow). t.id < db.txn_seq) db.transactions
  pub postings : All (λ (p : PostingRow). p.txn_id < db.txn_seq) db.postings

-- What is pending is among these transactions.
abbrev pub ArePending : List ℕ → Db → Type 0
ArePending ids db =
    All (λ (p : PostingRow). is_pending db p ≡ true → mem_id p.txn_id ids ≡ true) db.postings

or_false : (a b : Bool) → b ≡ false → (a || b) ≡ a
or_false a b h = ground arith

and_right : (a b : Bool) → (a && b) ≡ true → b ≡ true
and_right a b h = ground arith

-- nothing among rows with other ids
no_such :
    (n : ℕ) (q : TxnRow → Bool) (txns : List TxnRow)
    → All (λ (t : TxnRow). t.id < n) txns
    → any_row (λ (t : TxnRow). (t.id == n) && q t) txns ≡ false
no_such n q [] h = refl
no_such n q (t ∷ txns) h = ground (arith, h.0, no_such n q txns h.1)

module _ {e : Entry} {guard : Option Guard} {db : Db} {r : PostResult} {db' : Db}
    (p : Posted e guard db r db') (issued : IsIssued db) where
  new_rows :
      (i : ℕ) (legs : List Leg)
      → All (λ (q : PostingRow). q.txn_id ≡ db.txn_seq) (posting_rows i db.txn_seq legs)
  new_rows i [] = tt
  new_rows i (l ∷ legs) = (refl, new_rows (suc i) legs)

  pub post-IsIssued : IsIssued db'
  post-IsIssued = subst IsIssued (sym p.written) (record {
    transactions =
        All-append _ db.transactions (txn_row db.txn_seq e ∷ [])
          (All-imp (λ (t : TxnRow) lt. later t.id lt) db.transactions issued.transactions)
          (omega arith, tt);
    postings =
        All-append _ db.postings (posting_rows db.posting_seq db.txn_seq e.legs)
          (All-imp (λ (q : PostingRow) lt. later q.txn_id lt) db.postings issued.postings)
          (All-imp (λ (q : PostingRow) is. this q.txn_id is) _ (new_rows db.posting_seq e.legs));
  })
    where
      later : (i : ℕ) → i < db.txn_seq → i < suc db.txn_seq
      later i lt = omega (arith, lt)

      this : (i : ℕ) → i ≡ db.txn_seq → i < suc db.txn_seq
      this i is = omega (arith, is)

module _ (e : Entry) (not_pending : e.pending_settle ≡ false) where
  new_txn : (n : ℕ) → is_pending_txn (txn_row n e) ≡ false
  new_txn n = rw not_pending (ground arith)

  module _ {guard : Option Guard} {db : Db} {r : PostResult} {db' : Db}
      (p : Posted e guard db r db') (issued : IsIssued db) where
    old_pending :
        (q : PostingRow)
        → q.txn_id < db.txn_seq
        → any_row
            (λ (t : TxnRow). (t.id == q.txn_id) && is_pending_txn t)
            (db.transactions ++ txn_row db.txn_seq e ∷ [])
          ≡ any_row (λ (t : TxnRow). (t.id == q.txn_id) && is_pending_txn t) db.transactions
    old_pending q lt =
        any_row-append (λ (t : TxnRow). (t.id == q.txn_id) && is_pending_txn t) db.transactions
          (txn_row db.txn_seq e ∷ [])
        ∙ or_false _ _ other
      where
        other :
            (((db.txn_seq == q.txn_id) && is_pending_txn (txn_row db.txn_seq e)) || false) ≡ false
        other = ground (arith, lt)

    new_pending :
        any_row
          (λ (t : TxnRow). (t.id == db.txn_seq) && is_pending_txn t)
          (db.transactions ++ txn_row db.txn_seq e ∷ [])
        ≡ false
    new_pending =
        any_row-append (λ (t : TxnRow). (t.id == db.txn_seq) && is_pending_txn t) db.transactions
          (txn_row db.txn_seq e ∷ [])
        ∙ rw
            (
              no_such db.txn_seq is_pending_txn db.transactions issued.transactions,
              new_txn db.txn_seq,
            )
            (ground arith)

    pub post-ArePending : (ids : List ℕ) → ArePending ids db → ArePending ids db'
    unfolding is_pending
    post-ArePending ids h = subst (ArePending ids) (sym p.written) (
        All-append listed db.postings (posting_rows db.posting_seq db.txn_seq e.legs)
          (All-imp {Q = listed}
            (λ (q : PostingRow) both pending. both.0 (rw (old_pending q both.1) at pending))
            db.postings (All-zip _ _ db.postings h issued.postings))
          (All-imp {Q = listed}
            (λ (q : PostingRow) is pending. absurd (false≢true (never q is pending))) _
            (new_rows p issued db.posting_seq e.legs)))
      where
        listed : PostingRow → Type 0
        listed q = is_pending (post_rows e r.balances db) q ≡ true → mem_id q.txn_id ids ≡ true

        never :
            (q : PostingRow)
            → q.txn_id ≡ db.txn_seq
            → (ltb_ℤ (pos 0) q.amount
                && any_row
                    (λ (t : TxnRow). (t.id == q.txn_id) && is_pending_txn t)
                    (db.transactions ++ txn_row db.txn_seq e ∷ []))
              ≡ true
            → false ≡ true
        never q is pending =
            sym new_pending
            ∙ ap
                (λ n.
                  any_row (λ (t : TxnRow). (t.id == n) && is_pending_txn t)
                    (db.transactions ++ txn_row db.txn_seq e ∷ []))
                (sym is)
            ∙ and_right (ltb_ℤ (pos 0) q.amount) _ pending

-- the payouts of a batch
module _ {κ} (P : Db → Type κ)
    (paid : (merchant payout : ℕ) (c : Currency) (net : Minor) (db : Db) (r : PostResult) (db' : Db)
      → Posted (payout_entry merchant payout c net) none db r db'
      → P db
      → P db') where
  pub pay_nets-kept :
      (payouts : List (Currency × ℕ)) (nets : List ((ℕ × Currency) × Minor)) (txns : List ℕ)
      (sum : ℤ) (s : Session) {a : List ℕ × ℤ} {s' : Session}
      → pay_nets payouts nets txns sum s ≡ (ok a, s')
      → P s.db
      → P s'.db
  unfolding pay_nets
  pay_nets-kept payouts [] txns sum s h k = subst (λ (t : Session). P t.db) (snd_eq h) k
  pay_nets-kept payouts (((merchant, c), net) ∷ nets) txns sum s h k =
      elim (Bool-cases (leb_ℤ net (pos 0))) [
        | inl skipped ↦ pay_nets-kept payouts nets txns sum s (rw skipped at h) k
        | inr positive ↦
            let e = payout_entry merchant (payout_of c payouts) c net in
            let (r, s₁, first, rest) =
              >>=-ok (post_entry_tx e none)
                (λ r. pay_nets payouts nets (txns ++ r.txn_id ∷ []) (add64 sum net)) s
                (rw positive at h) in
            pay_nets-kept payouts nets _ _ s₁ rest (
              paid merchant (payout_of c payouts) c net s.db r s₁.db
                (post_entry_tx-Posted e none s first) k)
      ]

abbrev pub NonePending : Db → Type 0
NonePending db = All (λ (p : PostingRow). is_pending db p ≡ false) db.postings

-- marking settles what is in the list
settled_txn :
    (batch : ℕ) (ids : List ℕ) (t : TxnRow)
    → mem_id t.id ids ≡ true
    → is_pending_txn (settle_txn batch ids t) ≡ false
settled_txn batch ids t h = rw h (ground arith)

pub id-settle_txn : (batch : ℕ) (ids : List ℕ) (t : TxnRow) → (settle_txn batch ids t).id ≡ t.id
id-settle_txn batch ids t = elim (Bool-cases (mem_id t.id ids)) [
  | inl marked ↦ rw marked refl
  | inr other ↦ rw other refl
]

any_row-same {ℓ κ} :
    {A : Type ℓ} {B : Type κ} (f : A → B) (p : B → Bool) (q : A → Bool) (xs : List A)
    → ((x : A) → p (f x) ≡ q x)
    → any_row p (map f xs) ≡ any_row q xs
any_row-same f p q [] h = refl
any_row-same f p q (x ∷ xs) h = rw (h x, any_row-same f p q xs h) refl

any_row-never {ℓ} :
    {A : Type ℓ} (p : A → Bool) (xs : List A) → ((x : A) → p x ≡ false) → any_row p xs ≡ false
any_row-never p [] h = refl
any_row-never p (x ∷ xs) h = rw (h x, any_row-never p xs h) refl

module _ (batch : ℕ) (ids : List ℕ) (db : Db) where
  pub marked-pending :
      (q : PostingRow)
      → (is_pending db q ≡ true → mem_id q.txn_id ids ≡ true)
      → is_pending (mark_settled batch ids db).1 q ≡ false
  unfolding is_pending mark_settled
  marked-pending q h = elim (Bool-cases (mem_id q.txn_id ids)) [
    | inl marked ↦
        rw
          (
            any_row-same (settle_txn batch ids)
                (λ (t : TxnRow). (t.id == q.txn_id) && is_pending_txn t) (λ t. false)
                db.transactions (λ t. gone t marked),
            any_row-never (λ (t : TxnRow). false) db.transactions (λ t. refl),
          )
          (ground arith)
    | inr other ↦ elim (Bool-cases (is_pending db q)) [
      | inl was ↦ absurd (false≢true (sym other ∙ h was))
      | inr was_not ↦
          ap (λ b. ltb_ℤ (pos 0) q.amount && b)
            (any_row-same (settle_txn batch ids)
              (λ (t : TxnRow). (t.id == q.txn_id) && is_pending_txn t)
              (λ (t : TxnRow). (t.id == q.txn_id) && is_pending_txn t) db.transactions
              (λ t. left t other))
          ∙ was_not
    ]
  ]
    where
      gone :
          (t : TxnRow)
          → mem_id q.txn_id ids ≡ true
          → (((settle_txn batch ids t).id == q.txn_id) && is_pending_txn (settle_txn batch ids t))
            ≡ false
      gone t marked = elim (Bool-cases (t.id == q.txn_id)) [
        | inl same ↦
            rw
              (settled_txn batch ids t
                (subst (λ i. mem_id i ids ≡ true) (sym ((==_iff t.id q.txn_id).0 same)) marked))
              (ground arith)
        | inr differ ↦ rw (id-settle_txn batch ids t, differ) refl
      ]

      left :
          (t : TxnRow)
          → mem_id q.txn_id ids ≡ false
          → (((settle_txn batch ids t).id == q.txn_id) && is_pending_txn (settle_txn batch ids t))
            ≡ ((t.id == q.txn_id) && is_pending_txn t)
      left t other = elim (Bool-cases (t.id == q.txn_id)) [
        | inl same ↦
            let out : mem_id t.id ids ≡ false =
              subst (λ i. mem_id i ids ≡ false) (sym ((==_iff t.id q.txn_id).0 same)) other in
            rw out refl
        | inr differ ↦ rw (id-settle_txn batch ids t, differ) refl
      ]
