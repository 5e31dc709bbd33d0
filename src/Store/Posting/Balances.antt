-- ===== src/Store/Posting/Balances.antt =====
-- The changes of step 3 and the new balances of step 4, account by account.
use bytedance_double_entry_l.Prelude.{
  ℕ, ◌≡◌, refl, sym, ap, subst, ◌∙◌, ◌⊎◌, false≢true, ◌||◌, ◌&&◌, not, Bool, true, false,
  Bool-cases, Option-cases, inl, inr, some, List, [], ◌∷◌, ◌++◌, map, All, total, any_row,
  any_row-append, find_row-any_row, find_row-true, arith, String, ◌==◌, ==_iff, if◌then◌else◌,
  find_row, str_eq,
}
use bytedance_double_entry_l.Prelude.Sort.{any_row-sort_by}
use bytedance_double_entry_l.Prelude.Int.{ℤ, pos, ◌+ℤ◌, ◌≤ℤ◌, ltb_ℤ, +ℤ_assoc, +ℤ_zero, zero_+ℤ}
use bytedance_double_entry_l.Prelude.Word.{wrap64, add64, wrap64-+ℤ_left}
use bytedance_double_entry_l.Prelude.GoMap.{value_at, add_at, value_at-add_at, id_eq}
use bytedance_double_entry_l.Errors.{Result, ok, err, map_ok, ok_inj, err-ne-ok}
use bytedance_double_entry_l.Money.Currency.{Minor}
use bytedance_double_entry_l.Ledger.Entry.{Leg}
use bytedance_double_entry_l.Store.Schema.{AccountRow}
use bytedance_double_entry_l.Store.Posting.{
  mem_id, distinct_ids, distinct_sorted_account_ids, leg_deltas, new_balances, with_balance,
}
use bytedance_double_entry_l.Store.Posting.Commit.{set_balances}

-- The amount of a leg, if it is on the account.
abbrev pub leg_to : ℕ → Leg → ℤ
leg_to i l = if l.account_id == i then l.amount else pos 0

value_at-step :
    (i : ℕ) (l : Leg) (m : List (ℕ × ℤ)) (rest : ℤ)
    → wrap64 (value_at i (add_at l.account_id l.amount m) +ℤ rest)
      ≡ wrap64 (value_at i m +ℤ (leg_to i l +ℤ rest))
unfolding add64
value_at-step i l m rest = elim (Bool-cases (l.account_id == i)) [
  | inl same ↦
      rw (value_at-add_at i l.account_id l.amount m, same)
        (wrap64-+ℤ_left (value_at i m +ℤ l.amount) rest
          ∙ ap wrap64 (+ℤ_assoc (value_at i m) l.amount rest))
  | inr differs ↦ rw (value_at-add_at i l.account_id l.amount m, differs, zero_+ℤ)
]

-- A leg that passes step 3 is on a locked account, in its currency.
pub leg_deltas-step :
    (l : Leg) (legs : List Leg) (rows : List AccountRow) (m : List (ℕ × ℤ)) {m' : List (ℕ × ℤ)}
    → leg_deltas (l ∷ legs) rows m ≡ ok m'
    → (acc : AccountRow) × (find_row (λ (a : AccountRow). a.id == l.account_id) rows ≡ some acc)
      × (str_eq l.currency acc.currency ≡ true)
      × (leg_deltas legs rows (add_at l.account_id l.amount m) ≡ ok m')
unfolding leg_deltas
leg_deltas-step l legs rows m h =
    elim (Option-cases (find_row (λ (a : AccountRow). a.id == l.account_id) rows)) [
      | inl missing ↦ absurd (err-ne-ok (rw (missing, leg_deltas) at h))
      | inr (acc, found) ↦ elim (Bool-cases (str_eq l.currency acc.currency)) [
        | inl same ↦ (acc, found, same, rw (found, same, leg_deltas) at h)
        | inr other ↦ absurd (err-ne-ok (rw (found, other, leg_deltas) at h))
      ]
    ]

-- is this row the account of the leg, in its currency
abbrev pub is_place_of : Leg → AccountRow → Bool
is_place_of l a = (a.id == l.account_id) && str_eq l.currency a.currency

pub leg_deltas-placed :
    (legs : List Leg) (rows : List AccountRow) (m : List (ℕ × ℤ)) {m' : List (ℕ × ℤ)}
    → leg_deltas legs rows m ≡ ok m'
    → All (λ l. any_row (is_place_of l) rows ≡ true) legs
leg_deltas-placed [] rows m h = tt
leg_deltas-placed (l ∷ legs) rows m h =
    let (acc, found, same, rest) = leg_deltas-step l legs rows m h in
    let is_acc = λ (a : AccountRow). a.id == l.account_id in
    (
      find_row-any_row is_acc (is_place_of l) rows found
          (rw (find_row-true is_acc rows found) same),
      leg_deltas-placed legs rows _ rest,
    )

-- The map of step 3 holds for each account the sum of its legs, modulo 2^64.
pub leg_deltas-total :
    (i : ℕ) (legs : List Leg) (rows : List AccountRow) (m : List (ℕ × ℤ)) {m' : List (ℕ × ℤ)}
    → leg_deltas legs rows m ≡ ok m'
    → wrap64 (value_at i m') ≡ wrap64 (value_at i m +ℤ total (leg_to i) legs)
unfolding leg_deltas
leg_deltas-total i [] rows m h =
    ap (λ m. wrap64 (value_at i m)) (sym (ok_inj h)) ∙ ap wrap64 (sym (+ℤ_zero (value_at i m)))
leg_deltas-total i (l ∷ legs) rows m {m'} h =
    leg_deltas-total i legs rows (add_at l.account_id l.amount m)
      (leg_deltas-step l legs rows m h).3
    ∙ value_at-step i l m (total (leg_to i) legs)

pub map_ok-ok :
    {A B : Type 0} (f : A → B) (r : Result A) {b : B}
    → map_ok f r ≡ ok b
    → (a : A) × (r ≡ ok a) × (f a ≡ b)
map_ok-ok f (ok a) h = (a, refl, ok_inj h)
map_ok-ok f (err e) h = absurd (err-ne-ok h)

nonneg :
    (nb : ℤ) (flag : Bool) → (ltb_ℤ nb (pos 0) && not flag) ≡ false → flag ≡ false → pos 0 ≤ℤ nb
nonneg nb flag h k = ground arith

abbrev pub entry_of : List (ℕ × ℤ) → AccountRow → ℕ × Minor
entry_of deltas a = (a.id, add64 a.balance (value_at a.id deltas))

-- The new balance of a locked row respects its no-negative flag.
abbrev pub Covered : List (ℕ × ℤ) → AccountRow → Type 0
Covered deltas a = a.allow_negative ≡ false → pos 0 ≤ℤ add64 a.balance (value_at a.id deltas)

pub new_balances-ok :
    (rows : List AccountRow) (deltas : List (ℕ × ℤ)) {balances : List (ℕ × Minor)}
    → new_balances rows deltas ≡ ok balances
    → (balances ≡ map (entry_of deltas) rows) × All (Covered deltas) rows
unfolding new_balances
new_balances-ok [] deltas h = (sym (ok_inj h), tt)
new_balances-ok (a ∷ rows) deltas {balances} h =
    elim (Bool-cases (ltb_ℤ nb (pos 0) && not a.allow_negative)) [
      | inl short ↦ absurd (err-ne-ok (rw short at h))
      | inr enough ↦
          let (rest, computed, is) =
            map_ok-ok ((λ l. (a.id, nb) ∷ l)) (new_balances rows deltas) (rw enough at h) in
          let (entries, covered) = new_balances-ok rows deltas computed in
          (
            sym is ∙ ap (λ l. (a.id, nb) ∷ l) entries,
            (λ flag. nonneg nb a.allow_negative enough flag, covered),
          )
    ]
  where
    nb : ℤ
    nb = add64 a.balance (value_at a.id deltas)

-- one account after all the UPDATEs
abbrev pub final_row : List (ℕ × Minor) → AccountRow → AccountRow
final_row [] a = a
final_row ((i, b) ∷ balances) a = final_row balances (with_balance i b a)

pub set_balances-map :
    (balances : List (ℕ × Minor)) (rows : List AccountRow)
    → set_balances balances rows ≡ map (final_row balances) rows
set_balances-map [] rows = sym (map_id rows)
  where
    map_id : (rows : List AccountRow) → map (λ a. a) rows ≡ rows
    map_id [] = refl
    map_id (a ∷ rows) = ap (λ r. a ∷ r) (map_id rows)
set_balances-map ((i, b) ∷ balances) rows =
    set_balances-map balances (map (with_balance i b) rows) ∙ map_map rows
  where
    map_map :
        (rows : List AccountRow)
        → map (final_row balances) (map (with_balance i b) rows)
          ≡ map (final_row ((i, b) ∷ balances)) rows
    map_map [] = refl
    map_map (a ∷ rows) = ap (λ r. final_row ((i, b) ∷ balances) a ∷ r) (map_map rows)

pub id-final_row : (balances : List (ℕ × Minor)) (a : AccountRow) → (final_row balances a).id ≡ a.id
id-final_row [] a = refl
id-final_row ((i, b) ∷ balances) a = id-final_row balances (with_balance i b a) ∙ ground arith

pub flag-final_row :
    (balances : List (ℕ × Minor)) (a : AccountRow)
    → (final_row balances a).allow_negative ≡ a.allow_negative
flag-final_row [] a = refl
flag-final_row ((i, b) ∷ balances) a = flag-final_row balances (with_balance i b a) ∙ ground arith

pub place-final_row :
    (balances : List (ℕ × Minor)) (i : ℕ) (c : String) (a : AccountRow)
    → ((((final_row balances a).id == i) && str_eq c (final_row balances a).currency)
        ≡ ((a.id == i) && str_eq c a.currency))
place-final_row [] i c a = refl
place-final_row ((j, b) ∷ balances) i c a =
    place-final_row balances i c (with_balance j b a) ∙ ground arith

-- What every new balance of the account satisfies, its final balance satisfies, if the old balance
-- does or there is a new one.
pub final_row-balance {ℓ} :
    (R : ℤ → Type ℓ) (balances : List (ℕ × Minor)) (a : AccountRow)
    → All (λ p. p.0 ≡ a.id → R p.1) balances
    → (R a.balance) ⊎ (any_row (λ p. p.0 == a.id) balances ≡ true)
    → R (final_row balances a).balance
final_row-balance R [] a h (inl old) = old
final_row-balance R [] a h (inr found) = absurd (false≢true found)
final_row-balance R ((i, b) ∷ balances) a h k = elim (Bool-cases (a.id == i)) [
  | inl same ↦
      rw (same, final_row)
        (final_row-balance R balances (record a { balance = b }) h.1 (inl (h.0 (ground arith))))
  | inr differs ↦
      rw (differs, final_row)
        (final_row-balance R balances a h.1
          (elim k [ inl old ↦ inl old | inr found ↦ inr (ground arith) ]))
]

distinct_ids-mem :
    (i : ℕ) (legs : List Leg) (ids : List ℕ)
    → mem_id i (distinct_ids legs ids)
      ≡ (mem_id i ids || any_row (λ (l : Leg). l.account_id == i) legs)
unfolding distinct_ids
distinct_ids-mem i [] ids = ground arith
distinct_ids-mem i (l ∷ legs) ids = elim (Bool-cases (mem_id l.account_id ids)) [
  | inl seen ↦ rw seen (distinct_ids-mem i legs ids ∙ absorb seen)
  | inr new ↦ rw new (
      distinct_ids-mem i legs (ids ++ l.account_id ∷ [])
      ∙ ground (arith, any_row-append (λ j. j == i) ids (l.account_id ∷ [])))
]
  where
    absorb :
        mem_id l.account_id ids ≡ true
        → (mem_id i ids || any_row (λ (l : Leg). l.account_id == i) legs)
          ≡ (mem_id i ids || ((l.account_id == i) || any_row (λ (l : Leg). l.account_id == i) legs))
    absorb seen = elim (Bool-cases (l.account_id == i)) [
      | inl same ↦
          ground (arith, subst (λ j. mem_id j ids ≡ true) ((==_iff l.account_id i).0 same) seen)
      | inr differs ↦ rw differs
    ]

any_leg_total :
    (i : ℕ) (legs : List Leg)
    → any_row (λ (l : Leg). l.account_id == i) legs ≡ false
    → total (leg_to i) legs ≡ pos 0
any_leg_total i [] h = refl
any_leg_total i (l ∷ legs) h = elim (Bool-cases (l.account_id == i)) [
  | inl same ↦ absurd (false≢true (sym (rw same at h)))
  | inr differs ↦ rw differs (zero_+ℤ _ ∙ any_leg_total i legs (rw differs at h))
]

-- An account that is not locked is on no leg.
pub unlocked_total :
    (i : ℕ) (legs : List Leg)
    → mem_id i (distinct_sorted_account_ids legs) ≡ false
    → total (leg_to i) legs ≡ pos 0
unfolding distinct_sorted_account_ids
unlocked_total i legs h = any_leg_total i legs (
    sym (distinct_ids-mem i legs [])
    ∙ sym (any_row-sort_by (λ j. j) (λ j. j == i) (distinct_ids legs []))
    ∙ h)
