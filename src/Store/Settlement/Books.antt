-- ===== src/Store/Settlement/Books.antt =====
-- internal/store/settlement.go: the books along the statements of a settlement batch.
use bytedance_double_entry_l.Prelude.{
  ℕ, ◌≡◌, refl, sym, ap, subst, Bool-cases, false, inl, inr, none, List, [], ◌∷◌, ◌++◌, length, All,
  arith, ltb, ◌&&◌, ◌^◌, ◌+◌,
}
use bytedance_double_entry_l.Prelude.Int.{ℤ, pos, leb_ℤ, ◌<ℤ◌, pos_part, neg_part}
use bytedance_double_entry_l.Prelude.Word.{InRange, add64, neg64_pos}
use bytedance_double_entry_l.Errors.{Result, ok, err, ok_inj, err-ne-ok, map_ok, >>=-eq-ok}
use bytedance_double_entry_l.Money.Currency.{Currency, Minor}
use bytedance_double_entry_l.Store.Schema.{Db}
use bytedance_double_entry_l.Store.Session.{Session, Tx, query, exec, pure, ◌>>=◌, ◌>>◌}
use bytedance_double_entry_l.Store.Session.Inversion.{>>=-ok, query-ok, exec-ok, fst_eq, snd_eq}
use bytedance_double_entry_l.Store.Session.Atomic.{run_in_tx-keeps}
use bytedance_double_entry_l.Store.Posting.{lock_accounts, post_entry_tx, locked_rows}
use bytedance_double_entry_l.Store.Posting.Commit.{post_entry_tx-Posted}
use bytedance_double_entry_l.Store.Payments.{scan_int64}
use bytedance_double_entry_l.Store.Queries.{scan_all}
use bytedance_double_entry_l.Store.Books.Exact.{NetsToZero}
use bytedance_double_entry_l.Store.Books.Kept.{IsKept}
use bytedance_double_entry_l.Store.Settlement.{
  candidate_merchants, payout_account, payout_accounts, union_sorted_ids, net_rows, pending_ids,
  compute_nets_locked, insert_batch, payout_of, payout_entry, pay_nets, mark_all, mark_settled,
  finalize_batch, pay_batch, settle_locked, settlement_tx, run_settlement,
}
use bytedance_double_entry_l.Ops.Legs.{move_net, positive_amount}

module _ {ι} {P : Db → Type ι} (is_kept : IsKept P) where
  -- A chain of statements that, when it succeeds, keeps P.
  abbrev Keeps {ℓ} : {A : Type ℓ} → Tx A → Type (ι ⊔ ℓ)
  Keeps {A = A} m = (s : Session) (a : A) (s' : Session) → m s ≡ (ok a, s') → P s.db → P s'.db

  -- ... and its result has a property
  abbrev Yields {ℓ} : {A : Type ℓ} → Tx A → (A → Type 0) → Type ℓ
  Yields {A = A} m Q = (s : Session) (a : A) (s' : Session) → m s ≡ (ok a, s') → Q a

  module _ {ℓ κ} {A : Type ℓ} {B : Type κ} (Q : A → Type 0) (m : Tx A) (f : A → Tx B) where
    chain : Keeps m → Yields m Q → ((a : A) → Q a → Keeps (f a)) → Keeps (m >>= f)
    chain first property rest s b s' h sound =
        let (a, s₁, run, more) = >>=-ok m f s h in
        rest a (property s a s₁ run) s₁ b s' more (first s a s₁ run sound)

  abbrev Any {ℓ} : {A : Type ℓ} → A → Type 0
  Any a = Unit {0}

  module _ {ℓ κ} {A : Type ℓ} {B : Type κ} (m : Tx A) (f : A → Tx B) where
    chain_any : Keeps m → ((a : A) → Keeps (f a)) → Keeps (m >>= f)
    chain_any first rest = chain Any m f first (λ s a s' h. tt) (λ a any. rest a)

  pure-Keeps {ℓ} : {A : Type ℓ} (a : A) → Keeps (pure a)
  pure-Keeps a s b s' h sound = subst (λ (t : Session). P t.db) (snd_eq h) sound

  query-Keeps {ℓ} : {A : Type ℓ} (f : Db → Result A) → Keeps (query f)
  query-Keeps f s a s' h sound = subst P (sym (query-ok f s h).1) sound

  exec-Keeps {ℓ} :
      {A : Type ℓ} (f : Db → Result A × Db) → ((db : Db) → P db → P (f db).1) → Keeps (exec f)
  exec-Keeps f keeps s a s' h sound = subst P (ap (λ p. p.1) (exec-ok f s h)) (keeps s.db sound)

  payout_entry-NetsToZero :
      (merchant payout : ℕ) (cur : Currency) (net : Minor)
      → InRange net
      → pos 0 <ℤ net
      → NetsToZero (payout_entry merchant payout cur net).legs
  unfolding payout_entry
  payout_entry-NetsToZero merchant payout cur net fits positive c =
      rw (neg64_pos net fits positive) (move_net cur c net (pos 0))

  -- A net that was read is an int64.
  abbrev IsSized : (ℕ × Currency) × Minor → Type 0
  IsSized p = InRange p.1

  scan_int64-InRange : (z : ℤ) {x : ℤ} → scan_int64 z ≡ ok x → InRange x
  unfolding scan_int64
  scan_int64-InRange z h =
      elim (Bool-cases (ltb (pos_part z) (2 ^ 63) && ltb (neg_part z) (2 ^ 63 + 1))) [
        | inl fits ↦ subst InRange (ok_inj (rw fits at h)) (ground arith, ground arith)
        | inr not_fits ↦ absurd (err-ne-ok (rw not_fits at h))
      ]

  scan_all-IsSized :
      (rows : List ((ℕ × Currency) × ℤ)) {out : List ((ℕ × Currency) × Minor)}
      → scan_all rows ≡ ok out
      → All IsSized out
  unfolding scan_all
  scan_all-IsSized [] h = subst (All IsSized) (ok_inj h) tt
  scan_all-IsSized ((k, z) ∷ rows) h =
      let (v, first, more) =
        >>=-eq-ok (scan_int64 z) (λ v. map_ok (λ m. (k, v) ∷ m) (scan_all rows)) h in
      tail v (scan_all rows) (λ out e. scan_all-IsSized rows e) more (scan_int64-InRange z first)
    where
      tail :
          (v : Minor) {out : List ((ℕ × Currency) × Minor)}
          (rest : Result (List ((ℕ × Currency) × Minor)))
          → ((out : List ((ℕ × Currency) × Minor)) → rest ≡ ok out → All IsSized out)
          → map_ok (λ m. (k, v) ∷ m) rest ≡ ok out
          → InRange v
          → All IsSized out
      tail v (ok m) sized e fits = subst (All IsSized) (ok_inj e) (fits, sized m refl)
      tail v (err x) sized e fits = absurd (err-ne-ok e)

  post_entry_tx-Keeps :
      (merchant payout : ℕ) (cur : Currency) (net : Minor)
      → InRange net
      → leb_ℤ net (pos 0) ≡ false
      → Keeps (post_entry_tx (payout_entry merchant payout cur net) none)
  post_entry_tx-Keeps merchant payout cur net fits positive s r s' h =
      is_kept.post (payout_entry merchant payout cur net) none s.db r s'.db
        (payout_entry-NetsToZero merchant payout cur net fits (positive_amount net positive))
        (post_entry_tx-Posted (payout_entry merchant payout cur net) none s h)

  pay_nets-Keeps :
      (payouts : List (Currency × ℕ)) (nets : List ((ℕ × Currency) × Minor)) (txns : List ℕ)
      (sum : ℤ)
      → All IsSized nets
      → Keeps (pay_nets payouts nets txns sum)
  unfolding pay_nets
  pay_nets-Keeps payouts [] txns sum fits = pure-Keeps (txns, sum)
  pay_nets-Keeps payouts (((merchant, c), net) ∷ nets) txns sum fits =
      elim (Bool-cases (leb_ℤ net (pos 0))) [
        | inl skipped ↦ rw skipped (pay_nets-Keeps payouts nets txns sum fits.1)
        | inr positive ↦ rw positive (
            chain_any (post_entry_tx (payout_entry merchant (payout_of c payouts) c net) none) _
              (post_entry_tx-Keeps merchant (payout_of c payouts) c net fits.0 positive)
              (λ r. pay_nets-Keeps payouts nets (txns ++ r.txn_id ∷ []) (add64 sum net) fits.1))
      ]

  mark_all-Keeps : (batch : ℕ) (ids : List ℕ) → Keeps (mark_all batch ids)
  mark_all-Keeps batch [] = pure-Keeps tt
  mark_all-Keeps batch (i ∷ ids) =
      exec-Keeps (mark_settled batch (i ∷ ids)) (is_kept.settled batch (i ∷ ids))

  pay_batch-Keeps :
      (payouts : List (Currency × ℕ)) (nets : List ((ℕ × Currency) × Minor)) (ids : List ℕ)
      → All IsSized nets
      → Keeps (pay_batch payouts (nets, ids))
  unfolding pay_batch ◌>>◌
  pay_batch-Keeps payouts nets ids fits =
      chain_any (exec insert_batch) _ (exec-Keeps insert_batch is_kept.batch) (λ batch.
        chain_any (pay_nets payouts nets [] (pos 0)) _ (pay_nets-Keeps payouts nets [] (pos 0) fits)
          (λ paid. chain_any (mark_all batch ids) _ (mark_all-Keeps batch ids) (λ marked.
            chain_any (exec (finalize_batch batch (length ids) paid.1)) _
              (exec-Keeps (finalize_batch batch (length ids) paid.1)
                (is_kept.finalized batch (length ids) paid.1))
              (λ final. pure-Keeps _))))

  -- the result of the two queries for the nets
  abbrev SizedNets : List ((ℕ × Currency) × Minor) × List ℕ → Type 0
  SizedNets p = All IsSized p.0

  compute_nets_locked-Keeps : (merchants : List ℕ) → Keeps (compute_nets_locked merchants)
  unfolding compute_nets_locked
  compute_nets_locked-Keeps [] = pure-Keeps ([], [])
  compute_nets_locked-Keeps (m ∷ merchants) =
      chain_any (query (λ db. scan_all (net_rows (m ∷ merchants) db))) _ (query-Keeps _) (λ nets.
        chain_any (query (λ db. ok (pending_ids (m ∷ merchants) db))) _ (query-Keeps _)
          (λ ids. pure-Keeps (nets, ids)))

  compute_nets_locked-SizedNets :
      (merchants : List ℕ) → Yields (compute_nets_locked merchants) SizedNets
  unfolding compute_nets_locked
  compute_nets_locked-SizedNets [] s a s' h = subst SizedNets (ok_inj (fst_eq h)) tt
  compute_nets_locked-SizedNets (m ∷ merchants) s a s' h =
      let rows : Tx (List ((ℕ × Currency) × Minor)) =
        query (λ db. scan_all (net_rows (m ∷ merchants) db)) in
      let ids_of : Tx (List ℕ) = query (λ db. ok (pending_ids (m ∷ merchants) db)) in
      let (nets, s₁, read, more) = >>=-ok rows (λ nets. ids_of >>= λ ids. pure (nets, ids)) s h in
      let (ids, s₂, read_ids, last) = >>=-ok ids_of (λ ids. pure (nets, ids)) s₁ more in
      subst SizedNets (ok_inj (fst_eq last)) (
        scan_all-IsSized (net_rows (m ∷ merchants) s.db)
          (query-ok (λ db. scan_all (net_rows (m ∷ merchants) db)) s read).0)

  settle_locked-Keeps :
      (merchants : List ℕ) (payouts : List (Currency × ℕ)) → Keeps (settle_locked merchants payouts)
  unfolding settle_locked lock_accounts
  settle_locked-Keeps merchants payouts =
      chain_any (query (locked_rows (union_sorted_ids merchants payouts))) _ (query-Keeps _)
        (λ locked.
          chain SizedNets (compute_nets_locked merchants) (pay_batch payouts)
            (compute_nets_locked-Keeps merchants) (compute_nets_locked-SizedNets merchants)
            (λ p fits. pay_batch-Keeps payouts p.0 p.1 fits))

  payout_accounts-Keeps : (cs : List Currency) → Keeps (payout_accounts cs)
  unfolding payout_accounts payout_account
  payout_accounts-Keeps [] = pure-Keeps []
  payout_accounts-Keeps (c ∷ cs) = chain_any (query _) _ (query-Keeps _) (λ i.
      chain_any (payout_accounts cs) _ (payout_accounts-Keeps cs)
        (λ rest. pure-Keeps ((c, i) ∷ rest)))

  candidate_merchants-Keeps : Keeps candidate_merchants
  unfolding candidate_merchants
  candidate_merchants-Keeps = query-Keeps _

  settlement_tx-Keeps : Keeps settlement_tx
  unfolding settlement_tx
  settlement_tx-Keeps = chain_any candidate_merchants _ candidate_merchants-Keeps (λ found.
      chain_any (payout_accounts found.1) _ (payout_accounts-Keeps found.1)
        (λ payouts. settle_locked-Keeps found.0 payouts))

  -- RunSettlement keeps what its statements keep, whatever is pending and whatever fails.
  pub run_settlement-kept : (s : Session) → P s.db → P (run_settlement s).1.db
  unfolding run_settlement
  run_settlement-kept s h =
      run_in_tx-keeps P settlement_tx s is_kept.rows
        (λ s₁ s₂ a run k. settlement_tx-Keeps s₁ a s₂ run k) h
