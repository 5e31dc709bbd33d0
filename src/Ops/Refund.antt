-- ===== src/Ops/Refund.antt =====
-- internal/ops/ops.go: refundGuard, and what has been refunded of a payment.
use bytedance_double_entry_l.Prelude.{
  String, ◌⊎◌, ℕ, ◌≡◌, ◌<◌, ◌^◌, refl, sym, ap, subst, ◌∙◌, Bool, Bool-cases, true, false, ◌&&◌,
  ◌||◌, inl, inr, some, List, [], ◌∷◌, ◌++◌, total, total-append, All, All-imp, any_row,
  any_row-append, arith, ◌==◌, ==_refl, if◌then◌else◌, ltb, ◌+◌,
}
use bytedance_double_entry_l.Prelude.Int.{
  ℤ, pos, pos_part, neg_part, neg, ◌+ℤ◌, ◌≤ℤ◌, ◌<ℤ◌, ltb_ℤ, int_laws, +ℤ_parts,
}
use bytedance_double_entry_l.Prelude.Word.{InRange, add64, neg64_pos, wrap64_id, parts_excl}
use bytedance_double_entry_l.Errors.{Result, ok, ok_inj, err-ne-ok, >>=-eq-ok}
use bytedance_double_entry_l.Money.Currency.{Minor}
use bytedance_double_entry_l.Store.Schema.{Db, Json, SameRows, TxnRow, PostingRow}
use bytedance_double_entry_l.Store.Posting.{PostResult, txn_row}
use bytedance_double_entry_l.Store.Posting.Commit.{Posted, posting_rows}
use bytedance_double_entry_l.Store.Payments.{
  PaymentLegs, refund_of, refund_debit, refunded, refunded_so_far, scan_int64,
}
use bytedance_double_entry_l.Store.Session.{Session}
use bytedance_double_entry_l.Store.Idempotency.{IdemResult, post_entry_idempotent_guarded}
use bytedance_double_entry_l.Store.Idempotency.Retry.{Called, kept, posted, call-Called}
use bytedance_double_entry_l.Ops.{within_captured, refund_entry, refund_guard}

-- Each posting has been given to a transaction whose id the sequence has passed.
abbrev pub IsNumbered : Db → Type 0
IsNumbered db = All (λ (p : PostingRow). p.txn_id < db.txn_seq) db.postings

or_false : (b : Bool) → (b || false) ≡ b
or_false b = ground arith

or_true : (b : Bool) → (b || true) ≡ true
or_true b = ground arith

-- a new transaction changes nothing for the postings that are there
old_debit :
    (i merchant n : ℕ) (txns : List TxnRow) (new : TxnRow) (ps : List PostingRow)
    → new.id ≡ n
    → All (λ (p : PostingRow). p.txn_id < n) ps
    → total (refund_debit i merchant (txns ++ new ∷ [])) ps
      ≡ total (refund_debit i merchant txns) ps
old_debit i merchant n txns new [] is h = refl
old_debit i merchant n txns new (p ∷ ps) is h =
    rw
      (
        any_row-append (λ (t : TxnRow). (t.id == p.txn_id) && refund_of i t) txns (new ∷ []),
        other,
        old_debit i merchant n txns new ps is h.1,
      )
      (rw (or_false (any_row (λ (t : TxnRow). (t.id == p.txn_id) && refund_of i t) txns)) refl)
  where
    other : (new.id == p.txn_id) ≡ false
    other = ground (arith, h.0)

-- the sum of the debit and of the credit, of which the first counts
debited :
    (x : ℤ) (b : Bool)
    → ltb_ℤ (neg x) (pos 0) ≡ true
    → ltb_ℤ x (pos 0) ≡ false
    → (if ltb_ℤ (neg x) (pos 0) then neg x else pos 0)
        +ℤ ((if b && ltb_ℤ x (pos 0) then x else pos 0) +ℤ pos 0)
      ≡ neg x
debited x true h k = rw (h, k) (omega int_laws)
debited x false h k = rw h (omega int_laws)

neg_negative : (x : ℤ) → pos 0 <ℤ x → ltb_ℤ (neg x) (pos 0) ≡ true
unfolding neg
neg_negative x h = ground arith

not_negative : (x : ℤ) → pos 0 <ℤ x → ltb_ℤ x (pos 0) ≡ false
not_negative x h = ground arith

pub scan_int64-ok : (z : ℤ) {x : ℤ} → scan_int64 z ≡ ok x → (x ≡ z) × InRange z
unfolding scan_int64
scan_int64-ok z h = elim (Bool-cases (ltb (pos_part z) (2 ^ 63) && ltb (neg_part z) (2 ^ 63 + 1))) [
  | inl fits ↦ (sym (ok_inj (rw fits at h)), (ground arith, ground arith))
  | inr not_fits ↦ absurd (err-ne-ok (rw not_fits at h))
]

within_captured-ok :
    (legs : PaymentLegs) (amount prior : Minor)
    → within_captured legs amount prior ≡ ok tt
    → add64 prior amount ≤ℤ legs.captured
within_captured-ok legs amount prior h =
    elim (Bool-cases (ltb_ℤ legs.captured (add64 prior amount))) [
      | inl over ↦ absurd (err-ne-ok (rw over at h))
      | inr within ↦ ground arith
    ]

add64_exact : (a b : ℤ) → InRange a → pos 0 <ℤ b → pos_part (a +ℤ b) < 2 ^ 63 → add64 a b ≡ a +ℤ b
unfolding add64
add64_exact a b h positive k =
    wrap64_id (a +ℤ b)
      (k, omega (arith, +ℤ_parts a b, parts_excl (a +ℤ b), parts_excl a, parts_excl b))

module _ (i : ℕ) (legs : PaymentLegs) (amount : Minor) (fits : InRange amount)
    (positive : pos 0 <ℤ amount) where
  -- the two postings of a refund take the amount from the merchant
  new_debit :
      (n q : ℕ) (txns : List TxnRow)
      → total
          (refund_debit i legs.merchant_account_id
            (txns ++ txn_row n (refund_entry i legs amount) ∷ []))
          (posting_rows q n (refund_entry i legs amount).legs)
        ≡ neg amount
  unfolding refund_entry
  new_debit n q txns =
      rw
        (
          any_row-append (λ (t : TxnRow). (t.id == n) && refund_of i t) txns
              (txn_row n (refund_entry i legs amount) ∷ []),
          ==_refl n,
          ==_refl i,
          or_true (any_row (λ (t : TxnRow). (t.id == n) && refund_of i t) txns),
          ==_refl legs.merchant_account_id,
          neg64_pos amount fits positive,
        )
        (debited amount _ (neg_negative amount positive) (not_negative amount positive))

  module _ {db : Db} {r : PostResult} {db' : Db}
      (p : Posted (refund_entry i legs amount) (some (refund_guard i legs amount)) db r db')
      (numbered : IsNumbered db) where
    refunded_after :
        refunded i legs.merchant_account_id db' ≡ refunded i legs.merchant_account_id db +ℤ amount
    unfolding refunded
    refunded_after =
        let e = refund_entry i legs amount in
        let m = legs.merchant_account_id in
        let txns = db.transactions ++ txn_row db.txn_seq e ∷ [] in
        ap (refunded i m) p.written
        ∙ ap neg (
            total-append (refund_debit i m txns) db.postings
              (posting_rows db.posting_seq db.txn_seq e.legs))
        ∙ rw
            (
              old_debit i m db.txn_seq db.transactions (txn_row db.txn_seq e) db.postings refl
                  numbered,
              new_debit db.txn_seq db.posting_seq db.transactions,
            )
            (omega int_laws)

    refund_within :
        pos_part (refunded i legs.merchant_account_id db +ℤ amount) < 2 ^ 63
        → refunded i legs.merchant_account_id db' ≤ℤ legs.captured
    unfolding refund_guard refunded_so_far
    refund_within no_overflow =
        let z = refunded i legs.merchant_account_id db in
        let (prior, scanned, within) =
          >>=-eq-ok (scan_int64 z) (within_captured legs amount)
            (p.guarded (refund_guard i legs amount) refl) in
        let (is, z_fits) = scan_int64-ok z scanned in
        subst (λ x. x ≤ℤ legs.captured)
          (ap (λ x. add64 x amount) is
            ∙ add64_exact z amount z_fits positive no_overflow
            ∙ sym refunded_after)
          (within_captured-ok legs amount prior within)

refunded-SameRows :
    (i merchant : ℕ) (a b : Db) → SameRows a b → refunded i merchant b ≡ refunded i merchant a
unfolding refunded
refunded-SameRows i merchant a b same = rw (same.transactions, same.postings) refl

IsNumbered-SameRows : (a b : Db) → SameRows a b → IsNumbered a → IsNumbered b
IsNumbered-SameRows a b same h =
    subst (All (λ (p : PostingRow). p.txn_id < b.txn_seq)) (sym same.postings)
      (All-imp (λ (p : PostingRow) lt. below p.txn_id lt) a.postings h)
  where
    below : (t : ℕ) → t < a.txn_seq → t < b.txn_seq
    below t lt = omega (arith, same.txn_seq)

-- Whatever fails on the way, the keyed posting of a refund leaves all rows as they were, or adds
-- exactly the amount to what has been refunded of the payment, which is then at most what was
-- captured. It is for a positive int64 amount, on rows whose postings have the ids of transactions
-- that were given out, and provided that what has been refunded and the amount sum to an int64.
pub refund_bounded :
    (i : ℕ) (legs : PaymentLegs) (amount : Minor) (key hash : String) (response : Json)
    (s : Session)
    → InRange amount
    → pos 0 <ℤ amount
    → IsNumbered s.db
    → pos_part (refunded i legs.merchant_account_id s.db +ℤ amount) < 2 ^ 63
    → let s' =
        (post_entry_idempotent_guarded key hash
          (refund_entry i legs amount)
          response
          (some (refund_guard i legs amount))
          s).1 in
      SameRows s.db s'.db
      ⊎ ((refunded i legs.merchant_account_id s'.db
            ≡ refunded i legs.merchant_account_id s.db +ℤ amount)
          × (refunded i legs.merchant_account_id s'.db ≤ℤ legs.captured))
unfolding refunded
refund_bounded i legs amount key hash response s fits positive numbered no_overflow = after (
    call-Called key hash (refund_entry i legs amount) response (some (refund_guard i legs amount))
      s)
  where
    m : ℕ
    m = legs.merchant_account_id

    after :
        {r : Result IdemResult} {s' : Session}
        → Called key hash
            (refund_entry i legs amount)
            response
            (some (refund_guard i legs amount))
            s
            r
            s'
        → SameRows s.db s'.db
          ⊎ ((refunded i m s'.db ≡ refunded i m s.db +ℤ amount)
              × (refunded i m s'.db ≤ℤ legs.captured))
    after (kept same) = inl same
    after {s'} (posted db₁ x same o told) =
        let e : refunded i m db₁ ≡ refunded i m s.db = refunded-SameRows i m s.db db₁ same in
        let is : refunded i m s'.db ≡ refunded i m o.mid = ap (refunded i m) o.written in
        let before = IsNumbered-SameRows s.db db₁ same numbered in
        inr (
          is
              ∙ refunded_after i legs amount fits positive o.posting before
              ∙ ap (λ z. z +ℤ amount) e,
          subst (λ z. z ≤ℤ legs.captured) (sym is)
              (refund_within i legs amount fits positive o.posting before
                (subst (λ z. pos_part (z +ℤ amount) < 2 ^ 63) (sym e) no_overflow)),
        )
