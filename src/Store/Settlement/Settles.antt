-- ===== src/Store/Settlement/Settles.antt =====
-- internal/store/settlement.go: RunSettlement settles everything that waits, and settles it once.
use bytedance_double_entry_l.Prelude.{
  ℕ, ◌≡◌, ◌<◌, refl, sym, ap, subst, ◌∙◌, Bool, false, List, [], ◌∷◌, length, All, All-imp,
  where_rows, arith,
}
use bytedance_double_entry_l.Prelude.Int.{ℤ, pos}
use bytedance_double_entry_l.Errors.{Result, ok, ok_inj}
use bytedance_double_entry_l.Money.Currency.{Currency, Minor}
use bytedance_double_entry_l.Store.Schema.{Db, TxnRow, PostingRow, SameRows}
use bytedance_double_entry_l.Store.Session.{Session, exec, ◌>>◌}
use bytedance_double_entry_l.Store.Session.Inversion.{
  >>=-ok, query_then-ok, exec-ok, fst_eq, snd_eq,
}
use bytedance_double_entry_l.Store.Session.Atomic.{run_in_tx-ok}
use bytedance_double_entry_l.Store.Posting.{lock_accounts}
use bytedance_double_entry_l.Store.Settlement.{
  settle_txn, mark_settled, SettlementResult, is_pending, merchant_of, sorted_keys,
  candidate_merchants, payout_account, payout_accounts, union_sorted_ids, compute_nets_locked,
  insert_batch, finalize_batch, pay_nets, mark_all, pay_batch, settle_locked, settlement_tx,
  run_settlement,
}
use bytedance_double_entry_l.Store.Settlement.Once.{IsIssued, NonePending}
use bytedance_double_entry_l.Store.Settlement.Paid.{
  candidates, Within, nets-ArePending, pay_batch-NonePending,
}

payout_accounts-db :
    (cs : List Currency) (s : Session) {a : List (Currency × ℕ)} {s' : Session}
    → payout_accounts cs s ≡ (ok a, s')
    → s'.db ≡ s.db
unfolding payout_accounts payout_account
payout_accounts-db [] s h = sym (ap Session.db (snd_eq h))
payout_accounts-db (c ∷ cs) s h =
    let (i, s₁, read, same, h₁) = query_then-ok _ _ s h in
    let (rest, s₂, more, h₂) = >>=-ok (payout_accounts cs) _ s₁ h₁ in
    sym (ap Session.db (snd_eq h₂)) ∙ payout_accounts-db cs s₁ more ∙ same

IsIssued-SameRows : (a b : Db) → SameRows a b → IsIssued a → IsIssued b
IsIssued-SameRows a b same h = record {
  transactions =
      subst (All (λ (t : TxnRow). t.id < b.txn_seq)) (sym same.transactions)
        (All-imp (λ (t : TxnRow) lt. below t.id lt) a.transactions h.transactions);
  postings =
      subst (All (λ (p : PostingRow). p.txn_id < b.txn_seq)) (sym same.postings)
        (All-imp (λ (p : PostingRow) lt. below p.txn_id lt) a.postings h.postings);
}
  where
    below : (i : ℕ) → i < a.txn_seq → i < b.txn_seq
    below i lt = omega (arith, same.txn_seq)

-- the batch that a successful settlement pays, from the rows it found
record Batch (s s' : Session) (r : SettlementResult) : Type 0 where
  payouts : List (Currency × ℕ)
  nets : List ((ℕ × Currency) × Minor)
  ids : List ℕ
  locked : Session
  netted : Session
  same : locked.db ≡ s.db
  netting : compute_nets_locked (candidates s.db) locked ≡ (ok (nets, ids), netted)
  paying : pay_batch payouts (nets, ids) netted ≡ (ok r, s')

settlement_tx-Batch :
    (s : Session) {r : SettlementResult} {s' : Session}
    → settlement_tx s ≡ (ok r, s')
    → Batch s s' r
unfolding settlement_tx candidate_merchants settle_locked lock_accounts
settlement_tx-Batch s h =
    let (found, s₁, read, same₁, h₁) = query_then-ok _ _ s h in
    let (payouts, s₂, finding, h₂) = >>=-ok (payout_accounts found.1) _ s₁ h₁ in
    let (rows, s₃, locking, same₃, h₃) = query_then-ok _ _ s₂ h₂ in
    let (p, s₄, netting, h₄) = >>=-ok (compute_nets_locked found.0) (pay_batch payouts) s₃ h₃ in
    record {
      payouts = payouts;
      nets = p.0;
      ids = p.1;
      locked = s₃;
      netted = s₄;
      same = same₃ ∙ payout_accounts-db found.1 s₁ finding ∙ same₁;
      netting =
          subst (λ ms. compute_nets_locked ms s₃ ≡ (ok p, s₄))
            (sym (ap (λ (f : List ℕ × List Currency). f.0) (ok_inj read))) netting;
      paying = h₄;
    }

Batch-NonePending :
    (s : Session) {r : SettlementResult} {s' : Session}
    → Batch s s' r
    → IsIssued s.db
    → NonePending s'.db
Batch-NonePending s b issued =
    let (unread, pending) = nets-ArePending b.locked (
      subst (λ d. compute_nets_locked (candidates d) b.locked ≡ (ok (b.nets, b.ids), b.netted))
        (sym b.same) b.netting) in
    pay_batch-NonePending b.payouts b.nets b.ids b.netted b.paying (
      subst (Within b.ids) (sym unread)
        (record { issued = subst IsIssued (sym b.same) issued; pending = pending }))

where_none {ℓ} :
    {A : Type ℓ} (q : A → Bool) (xs : List A) → All (λ x. q x ≡ false) xs → where_rows q xs ≡ []
where_none q [] h = refl
where_none q (x ∷ xs) h = rw (h.0, where_none q xs h.1)

no_candidates : (db : Db) → NonePending db → candidates db ≡ []
unfolding sorted_keys bytedance_double_entry_l.Store.Settlement.merchant_keys
no_candidates db h = rw (where_none (is_pending db) db.postings h) refl

-- Nothing was paid, and no balance has changed.
abbrev PaysNothing : Session → SettlementResult → Session → Type 0
PaysNothing s r s' =
    (r.payout_txns ≡ [])
    × (r.item_count ≡ 0)
    × (s'.db.postings ≡ s.db.postings)
    × (s'.db.accounts ≡ s.db.accounts)

pay_nets-none :
    (payouts : List (Currency × ℕ)) (s : Session) {p : List ℕ × ℤ} {s' : Session}
    → pay_nets payouts [] [] (pos 0) s ≡ (ok p, s')
    → (p.0 ≡ []) × (s'.db ≡ s.db)
unfolding pay_nets
pay_nets-none payouts s h =
    (sym (ap (λ (q : List ℕ × ℤ). q.0) (ok_inj (fst_eq h))), sym (ap Session.db (snd_eq h)))

mark_all-none :
    (batch : ℕ) (s : Session) {u : Unit {0}} {s' : Session}
    → mark_all batch [] s ≡ (ok u, s')
    → s'.db ≡ s.db
mark_all-none batch s h = sym (ap Session.db (snd_eq h))

insert_batch-keeps :
    (db : Db)
    → ((insert_batch db).1.postings ≡ db.postings) × ((insert_batch db).1.accounts ≡ db.accounts)
unfolding insert_batch
insert_batch-keeps db = (refl, refl)

finalize_batch-keeps :
    (batch count : ℕ) (sum : ℤ) (db : Db)
    → ((finalize_batch batch count sum db).1.postings ≡ db.postings)
      × ((finalize_batch batch count sum db).1.accounts ≡ db.accounts)
unfolding finalize_batch
finalize_batch-keeps batch count sum db = (refl, refl)

empty_batch :
    (payouts : List (Currency × ℕ)) (nets : List ((ℕ × Currency) × Minor)) (ids : List ℕ)
    (s : Session) {r : SettlementResult} {s' : Session}
    → nets ≡ []
    → ids ≡ []
    → pay_batch payouts (nets, ids) s ≡ (ok r, s')
    → PaysNothing s r s'
unfolding pay_batch ◌>>◌
empty_batch payouts nets ids s {r} {s'} no_nets no_ids h =
    let (batch, s₁, inserting, h₁) = >>=-ok (exec insert_batch) _ s h in
    let (paid, s₂, paying, h₂) = >>=-ok (pay_nets payouts nets [] (pos 0)) _ s₁ h₁ in
    let (marked, s₃, marking, h₃) = >>=-ok (mark_all batch ids) _ s₂ h₂ in
    let (done, s₄, finishing, h₄) =
      >>=-ok (exec (finalize_batch batch (length ids) paid.1)) _ s₃ h₃ in
    let begun : (insert_batch s.db).1 ≡ s₁.db =
      ap (λ (p : Result ℕ × Db). p.1) (exec-ok insert_batch s inserting) in
    let ended : (finalize_batch batch (length ids) paid.1 s₃.db).1 ≡ s₄.db =
      ap (λ (p : Result (Unit {0}) × Db). p.1)
        (exec-ok (finalize_batch batch (length ids) paid.1) s₃ finishing) in
    let (none_paid, same₂) =
      pay_nets-none payouts s₁
        (subst (λ ns. pay_nets payouts ns [] (pos 0) s₁ ≡ (ok paid, s₂)) no_nets paying) in
    let same₃ =
      mark_all-none batch s₂
        (subst (λ is. mark_all batch is s₂ ≡ (ok marked, s₃)) no_ids marking) in
    let before : s₃.db ≡ (insert_batch s.db).1 = same₃ ∙ same₂ ∙ sym begun in
    let after : s'.db ≡ (finalize_batch batch (length ids) paid.1 s₃.db).1 =
      sym (ap Session.db (snd_eq h₄)) ∙ sym ended in
    let kept = finalize_batch-keeps batch (length ids) paid.1 s₃.db in
    (
      sym (ap SettlementResult.payout_txns (ok_inj (fst_eq h₄))) ∙ none_paid,
      sym (ap SettlementResult.item_count (ok_inj (fst_eq h₄))) ∙ ap length no_ids,
      ap Db.postings after ∙ kept.0 ∙ ap Db.postings before ∙ (insert_batch-keeps s.db).0,
      ap Db.accounts after ∙ kept.1 ∙ ap Db.accounts before ∙ (insert_batch-keeps s.db).1,
    )

no_merchants :
    (merchants : List ℕ) (s : Session) {nets : List ((ℕ × Currency) × Minor)} {ids : List ℕ}
    {s' : Session}
    → merchants ≡ []
    → compute_nets_locked merchants s ≡ (ok (nets, ids), s')
    → (nets ≡ []) × (ids ≡ []) × (s'.db ≡ s.db)
unfolding compute_nets_locked
no_merchants merchants s {nets} {ids} {s'} none_there h =
    let k : compute_nets_locked [] s ≡ (ok (nets, ids), s') =
      subst (λ ms. compute_nets_locked ms s ≡ (ok (nets, ids), s')) none_there h in
    (
      sym (ap (λ (p : List ((ℕ × Currency) × Minor) × List ℕ). p.0) (ok_inj (fst_eq k))),
      sym (ap (λ (p : List ((ℕ × Currency) × Minor) × List ℕ). p.1) (ok_inj (fst_eq k))),
      sym (ap Session.db (snd_eq k)),
    )

Batch-PaysNothing :
    (s : Session) {r : SettlementResult} {s' : Session}
    → Batch s s' r
    → NonePending s.db
    → PaysNothing s r s'
Batch-PaysNothing s b h =
    let (no_nets, no_ids, unread) =
      no_merchants (candidates s.db) b.locked (no_candidates s.db h) b.netting in
    let (a, c, d, e) = empty_batch b.payouts b.nets b.ids b.netted no_nets no_ids b.paying in
    let same = unread ∙ b.same in (a, c, d ∙ ap Db.postings same, e ∙ ap Db.accounts same)

NonePending-SameRows : (a b : Db) → SameRows a b → NonePending a → NonePending b
unfolding is_pending
NonePending-SameRows a b same h = rw (same.postings, same.transactions) h

-- A batch that succeeds leaves no payment pending, and a batch right after it that succeeds pays
-- nobody: it has no item and no payout, and no posting and no balance has changed. The ids of
-- transactions are those that the sequence has given out.
pub settled_once :
    (s s' s'' : Session) (r₁ r₂ : SettlementResult)
    → IsIssued s.db
    → run_settlement s ≡ (ok r₁, s')
    → run_settlement s' ≡ (ok r₂, s'')
    → All (λ (p : PostingRow). is_pending s'.db p ≡ false) s'.db.postings
      × (r₂.payout_txns ≡ [])
      × (r₂.item_count ≡ 0)
      × (s''.db.postings ≡ s'.db.postings)
      × (s''.db.accounts ≡ s'.db.accounts)
unfolding run_settlement
settled_once s s' s'' r₁ r₂ issued first second =
    let (t₁, t₂, same, ran, is) = run_in_tx-ok settlement_tx s first in
    let (u₁, u₂, same', ran', is') = run_in_tx-ok settlement_tx s' second in
    let settled : NonePending s'.db = subst NonePending (sym is) (
      Batch-NonePending t₁ (settlement_tx-Batch t₁ ran)
        (IsIssued-SameRows s.db t₁.db same issued)) in
    let (a, b, c, d) =
      Batch-PaysNothing u₁ (settlement_tx-Batch u₁ ran')
        (NonePending-SameRows s'.db u₁.db same' settled) in
    (
      settled,
      a,
      b,
      ap Db.postings is' ∙ c ∙ same'.postings,
      ap Db.accounts is' ∙ d ∙ same'.accounts,
    )
