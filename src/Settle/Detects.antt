-- ===== src/Settle/Detects.antt =====
-- internal/settle/reconcile.go: what an OK report says of the rows, whatever they are.
use bytedance_double_entry_l.Prelude.{
  suc, All-zip, ℕ, ◌≡◌, refl, sym, ap, subst, ◌∙◌, Bool, Bool-cases, true, false, ◌&&◌, ◌||◌, not,
  inl, inr, List, [], ◌∷◌, ◌++◌, map, length, All, All-imp, total, total-none, any_row, where_rows,
  arith, ◌==◌, ==_refl, ==_iff, false≢true, str_eq,
}
use bytedance_double_entry_l.Prelude.Int.{ℤ, pos, eqb_ℤ, eqb_ℤ_eq}
use bytedance_double_entry_l.Prelude.Sort.{length-sort_by}
use bytedance_double_entry_l.Prelude.GoMap.{Eq, value_at, id_eq, string_eq}
use bytedance_double_entry_l.Errors.{Result, ok, err, ok_inj, err-ne-ok, map_ok, >>=-eq-ok}
use bytedance_double_entry_l.Money.Currency.{Currency, Minor}
use bytedance_double_entry_l.Store.Schema.{Db, AccountRow, PostingRow}
use bytedance_double_entry_l.Store.Session.{Session}
use bytedance_double_entry_l.Store.Session.Inversion.{query_then-ok, fst_eq}
use bytedance_double_entry_l.Store.Books.{posted_to, posted_in, posted_by}
use bytedance_double_entry_l.Store.Payments.{scan_int64}
use bytedance_double_entry_l.Ops.Refund.{scan_int64-ok}
use bytedance_double_entry_l.Store.Queries.{
  scan_all, distinct_keys, recomputed_rows, stored_rows, conservation_rows, is_unbalanced,
  unbalanced_rows, unbalanced_txns, stored_balances, recomputed_balances, conservation_by_currency,
  counts,
}
use bytedance_double_entry_l.Settle.Reconcile.{
  DriftItem, ReconcileReport, drift_items, is_conserved, report, reconcile,
}
use bytedance_double_entry_l.Settle.Clean.{derived_value}

module _ {ℓ} {A : Type ℓ} where
  found_in {κ} :
      (P : A → Type κ) (q : A → Bool) (xs : List A)
      → any_row q xs ≡ true
      → All P xs
      → (x : A) × (q x ≡ true) × P x
  found_in P q [] h all = absurd (false≢true h)
  found_in P q (x ∷ xs) h all = elim (Bool-cases (q x)) [
    | inl here ↦ (x, here, all.0)
    | inr later ↦ found_in P q xs (rw later at h) all.1
  ]

  none_found : (q : A → Bool) (xs : List A) → any_row q xs ≡ false → All (λ x. q x ≡ false) xs
  none_found q [] h = tt
  none_found q (x ∷ xs) h = (ground (arith, h), none_found q xs (ground (arith, h)))

  none_kept :
      (q : A → Bool) (xs : List A) → length (where_rows q xs) ≡ 0 → All (λ x. q x ≡ false) xs
  none_kept q [] h = tt
  none_kept q (x ∷ xs) h = elim (Bool-cases (q x)) [
    | inl kept ↦
        let k : length (x ∷ where_rows q xs) ≡ 0 = rw kept at h in absurd (omega (arith, k))
    | inr dropped ↦ (dropped, none_kept q xs (rw dropped at h))
  ]

-- what holds of the distinct keys holds of all
distinct_keys-All {ℓ κ} :
    {K : Type ℓ} ⦃e : Eq K⦄ (P : K → Type κ) (ks seen : List K)
    → All P (distinct_keys ks seen)
    → All P seen × All P ks
unfolding distinct_keys
distinct_keys-All P [] seen h = (h, tt)
distinct_keys-All ⦃e⦄ P (k ∷ ks) seen h = elim (Bool-cases (any_row (λ j. e.beq j k) seen)) [
  | inl there ↦
      let (before, after) = distinct_keys-All P ks seen (rw there at h) in
      let (j, same, holds) = found_in P (λ j. e.beq j k) seen there before in
      (before, (subst P ((e.beq_iff j k).0 same) holds, after))
  | inr new ↦
      let (before, after) = distinct_keys-All P ks (seen ++ k ∷ []) (rw new at h) in
      let (old, fresh) = parts seen before in (old, (fresh, after))
]
  where
    parts : (xs : List _) → All P (xs ++ k ∷ []) → All P xs × P k
    parts [] all = (tt, all.0)
    parts (x ∷ xs) all = let (a, b) = parts xs all.1 in ((all.0, a), b)

scan_all-ok {ℓ} :
    {K : Type ℓ} (rows : List (K × ℤ)) {out : List (K × Minor)}
    → scan_all rows ≡ ok out
    → out ≡ rows
unfolding scan_all
scan_all-ok [] h = sym (ok_inj h)
scan_all-ok {K} ((k, z) ∷ rows) {out} h =
    let (v, first, more) =
      >>=-eq-ok (scan_int64 z) (λ v. map_ok (λ m. (k, v) ∷ m) (scan_all rows)) h in
    tail v (scan_int64-ok z first).0 (scan_all rows) (λ rest e. scan_all-ok rows e) more
  where
    tail :
        (v : ℤ)
        → v ≡ z
        → (r : Result (List (K × Minor))) → ((rest : List (K × Minor)) → r ≡ ok rest → rest ≡ rows)
        → map_ok (λ m. (k, v) ∷ m) r ≡ ok out
        → out ≡ (k, z) ∷ rows
    tail v e (ok m) same h = sym (ok_inj h) ∙ (λ i. (k, e i) ∷ same m refl i)
    tail v e (err x) same h = absurd (err-ne-ok h)

-- no drift item means that every balance is the value recomputed for it
no_drift_items :
    (derived : List (ℕ × Minor)) (accounts : List AccountRow)
    → length (drift_items (map (λ (a : AccountRow). (a.id, a.balance)) accounts) derived) ≡ 0
    → All (λ (a : AccountRow). a.balance ≡ value_at a.id derived) accounts
unfolding drift_items
no_drift_items derived [] h = tt
no_drift_items derived (a ∷ accounts) h =
    elim (Bool-cases (eqb_ℤ a.balance (value_at a.id derived))) [
      | inl same ↦ (eqb_ℤ_eq _ _ same, no_drift_items derived accounts (rw same at h))
      | inr drifts ↦ absurd (some_item _ (rw drifts at h))
    ]
  where
    some_item : (n : ℕ) → suc n ≡ 0 → ⊥
    some_item n h = omega (arith, h)

conserved_sums :
    (db : Db) (cs : List Currency)
    → is_conserved (map (λ c. (c, total (posted_in c) db.postings)) cs) ≡ true
    → All (λ c. total (posted_in c) db.postings ≡ pos 0) cs
unfolding is_conserved
conserved_sums db [] h = tt
conserved_sums db (c ∷ cs) h = elim (Bool-cases (eqb_ℤ (total (posted_in c) db.postings) (pos 0))) [
  | inl zero_sum ↦ (eqb_ℤ_eq _ _ zero_sum, conserved_sums db cs (rw zero_sum at h))
  | inr not_zero ↦ absurd (false≢true (rw not_zero at h))
]

All-unmap {ℓ κ μ} :
    {A : Type ℓ} {B : Type κ} (P : B → Type μ) (f : A → B) (xs : List A)
    → All P (map f xs)
    → All (λ x. P (f x)) xs
All-unmap P f [] h = tt
All-unmap P f (x ∷ xs) h = (h.0, All-unmap P f xs h.1)

in_table :
    (rows : List AccountRow)
    → All (λ (a : AccountRow). any_row (λ (b : AccountRow). b.id == a.id) rows ≡ true) rows
in_table [] = tt
in_table (a ∷ rows) = (
  rw (==_refl a.id) refl,
  All-imp (λ (b : AccountRow) h. or_later (a.id == b.id) h) rows (in_table rows),
)
  where
    or_later : (b : Bool) {c : Bool} → c ≡ true → (b || c) ≡ true
    or_later b e = ground arith

both : (a b : Bool) → (a && b) ≡ true → (a ≡ true) × (b ≡ true)
both a b h = (ground (arith, h), ground (arith, h))

not_unbalanced : (a b : Bool) → (a && not b) ≡ false → a ≡ true → b ≡ true
not_unbalanced a b h k = ground (arith, h, k)

module _ (db : Db) where
  balanced-txn :
      length (unbalanced_rows db) ≡ 0
      → All (λ (p : PostingRow). is_unbalanced db p.txn_id ≡ false) db.postings
  unfolding unbalanced_rows
  balanced-txn h =
      All-unmap (λ t. is_unbalanced db t ≡ false) PostingRow.txn_id db.postings
        (distinct_keys-All (λ t. is_unbalanced db t ≡ false) (map PostingRow.txn_id db.postings) []
          (none_kept (is_unbalanced db) _ (sym (length-sort_by (λ t. t) _) ∙ h))).1

  zero_by_txn :
      length (unbalanced_rows db) ≡ 0
      → (t : ℕ) (c : Currency) → total (posted_by t c) db.postings ≡ pos 0
  unfolding is_unbalanced
  zero_by_txn h t c =
      let is_one : PostingRow → Bool = λ p. (p.txn_id == t) && str_eq p.currency c in
      elim (Bool-cases (any_row is_one db.postings)) [
        | inl there ↦
            let (p, is, balanced) =
              found_in (λ (q : PostingRow). is_unbalanced db q.txn_id ≡ false) is_one db.postings
                there (balanced-txn h) in
            let (of_t, in_c) = both (p.txn_id == t) (str_eq p.currency c) is in
            let at_t : is_unbalanced db t ≡ false =
              subst (λ u. is_unbalanced db u ≡ false) ((==_iff p.txn_id t).0 of_t) balanced in
            let (q, is_q, zero_q) =
              found_in _ is_one db.postings there (none_found _ db.postings at_t) in
            let (q_of_t, q_in_c) = both (q.txn_id == t) (str_eq q.currency c) is_q in
            subst (λ d. total (posted_by t d) db.postings ≡ pos 0)
              ((string_eq.beq_iff q.currency c).0 q_in_c)
              (eqb_ℤ_eq _ _ (not_unbalanced (q.txn_id == t) _ zero_q q_of_t))
        | inr absent ↦ total-none (posted_by t c) db.postings (
            All-imp (λ (p : PostingRow) other. rw other refl) db.postings
              (none_found is_one db.postings absent))
      ]

  zero_by_currency :
      is_conserved (conservation_rows db) ≡ true
      → (c : Currency) → total (posted_in c) db.postings ≡ pos 0
  unfolding conservation_rows
  zero_by_currency h c =
      let is_one : PostingRow → Bool = λ p. str_eq p.currency c in
      let zeros =
        All-unmap (λ d. total (posted_in d) db.postings ≡ pos 0) PostingRow.currency db.postings
          (distinct_keys-All (λ d. total (posted_in d) db.postings ≡ pos 0)
            (map PostingRow.currency db.postings) [] (conserved_sums db _ h)).1 in
      elim (Bool-cases (any_row is_one db.postings)) [
        | inl there ↦
            let (p, is, zero_sum) = found_in _ is_one db.postings there zeros in
            subst (λ d. total (posted_in d) db.postings ≡ pos 0)
              ((string_eq.beq_iff p.currency c).0 is) zero_sum
        | inr absent ↦ total-none (posted_in c) db.postings (
            All-imp (λ (p : PostingRow) other. rw other refl) db.postings
              (none_found is_one db.postings absent))
      ]

  exact_balances :
      length (drift_items (stored_rows db) (recomputed_rows db)) ≡ 0
      → All (λ (a : AccountRow). a.balance ≡ total (posted_to a.id) db.postings) db.accounts
  unfolding stored_rows recomputed_rows
  exact_balances h =
      All-imp (λ (a : AccountRow) p. p.0 ∙ derived_value a.id db.accounts db.postings p.1)
        db.accounts
        (All-zip _ _ db.accounts (no_drift_items (recomputed_rows db) db.accounts h)
          (in_table db.accounts))

-- the three parts of an OK report
ok_parts :
    (unbalanced : List ℕ) (stored derived : List (ℕ × Minor)) (cons : List (Currency × Minor))
    (totals : ℕ × ℕ × ℕ)
    → (report unbalanced stored derived cons totals).is_ok ≡ true
    → (length unbalanced ≡ 0)
      × (length (drift_items stored derived) ≡ 0)
      × (is_conserved cons ≡ true)
unfolding report
ok_parts unbalanced stored derived cons totals h =
    let (two, third) = both _ _ h in
    let (first, second) = both _ _ two in
    (
      (==_iff (length unbalanced) 0).0 first,
      sym (length-sort_by DriftItem.account_id _) ∙ (==_iff _ 0).0 second,
      third,
    )

-- What a reconciliation that succeeds has read: the exact sums of the rows it began with.
reconcile-reads :
    (s : Session) {rep : ReconcileReport} {s' : Session}
    → reconcile s ≡ (ok rep, s')
    → (totals : ℕ × ℕ × ℕ) × (rep
        ≡ report
            (unbalanced_rows s.db)
            (stored_rows s.db)
            (recomputed_rows s.db)
            (conservation_rows s.db)
            totals)
unfolding reconcile unbalanced_txns stored_balances recomputed_balances conservation_by_currency
    counts
reconcile-reads s {rep} h =
    let (unbalanced, s₁, read₁, same₁, h₁) = query_then-ok (λ db. ok (unbalanced_rows db)) _ s h in
    let (stored, s₂, read₂, same₂, h₂) = query_then-ok (λ db. ok (stored_rows db)) _ s₁ h₁ in
    let (derived, s₃, read₃, same₃, h₃) =
      query_then-ok (λ db. scan_all (recomputed_rows db)) _ s₂ h₂ in
    let (cons, s₄, read₄, same₄, h₄) =
      query_then-ok (λ db. scan_all (conservation_rows db)) _ s₃ h₃ in
    let (totals, s₅, read₅, same₅, h₅) =
      query_then-ok (λ db. ok (length db.accounts, length db.transactions, length db.postings)) _ s₄
        h₄ in
    let two = same₂ ∙ same₁ in
    let three = same₃ ∙ two in
    let e₁ : unbalanced ≡ unbalanced_rows s.db = sym (ok_inj read₁) in
    let e₂ : stored ≡ stored_rows s.db = sym (ok_inj read₂) ∙ ap stored_rows same₁ in
    let e₃ : derived ≡ recomputed_rows s.db =
      scan_all-ok (recomputed_rows s₂.db) read₃ ∙ ap recomputed_rows two in
    let e₄ : cons ≡ conservation_rows s.db =
      scan_all-ok (conservation_rows s₃.db) read₄ ∙ ap conservation_rows three in
    (totals, sym (ok_inj (fst_eq h₅)) ∙ (λ i. report (e₁ i) (e₂ i) (e₃ i) (e₄ i) totals))

-- A report that counts no drift vouches for the cached balances of any rows.
pub reconcile-no_drift :
    (s : Session) {rep : ReconcileReport} {s' : Session}
    → reconcile s ≡ (ok rep, s')
    → rep.drift_count ≡ 0
    → All (λ (a : AccountRow). a.balance ≡ total (posted_to a.id) s.db.postings) s.db.accounts
unfolding report
reconcile-no_drift s h none_counted =
    let (totals, is) = reconcile-reads s h in
    exact_balances s.db (
      sym (length-sort_by DriftItem.account_id _)
      ∙ sym (ap ReconcileReport.drift_count is)
      ∙ none_counted)

-- An OK report vouches for any rows, however they came about: each cached balance is exactly the sum
-- of the account's postings, every transaction nets to zero in every currency, and so does the
-- whole journal.
pub reconcile-detects :
    (s : Session) {rep : ReconcileReport} {s' : Session}
    → reconcile s ≡ (ok rep, s')
    → rep.is_ok ≡ true
    → All (λ (a : AccountRow). a.balance ≡ total (posted_to a.id) s.db.postings) s.db.accounts
      × ((t : ℕ) (c : Currency) → total (posted_by t c) s.db.postings ≡ pos 0)
      × ((c : Currency) → total (posted_in c) s.db.postings ≡ pos 0)
reconcile-detects s {rep} h is_ok =
    let (totals, is) = reconcile-reads s h in
    let (no_unbalanced, no_drift, conserved) =
      ok_parts (unbalanced_rows s.db) (stored_rows s.db) (recomputed_rows s.db)
        (conservation_rows s.db) totals (sym (ap ReconcileReport.is_ok is) ∙ is_ok) in
    (exact_balances s.db no_drift, zero_by_txn s.db no_unbalanced, zero_by_currency s.db conserved)
