-- ===== src/Ledger/Balance.antt =====
-- internal/ledger/types.go: which entries Entry.Validate accepts.
use bytedance_double_entry_l.Prelude.{
  ℕ, ◌≤◌, ◌≡◌, ◌≢◌, refl, sym, ap, subst, ◌∙◌, ◌↔◌, true, false≢true, false, List, [], ◌∷◌, All,
  total, length, arith, ltb, if◌then◌else◌, str_eq, Bool-cases, inl, inr,
}
use bytedance_double_entry_l.Prelude.Int.{
  ℤ, pos, ◌+ℤ◌, eqb_ℤ, eqb_ℤ_eq, eqb_ℤ_refl, +ℤ_assoc, +ℤ_zero, zero_+ℤ,
}
use bytedance_double_entry_l.Prelude.Word.{
  InRange, wrap64, add64, wrap64_id, wrap64-InRange, wrap64-+ℤ_left,
}
use bytedance_double_entry_l.Prelude.GoMap.{
  value_at, add_at, value_at-add_at, KeysDistinct, add_at-KeysDistinct, zero_values, string_eq,
}
use bytedance_double_entry_l.Errors.{Result, ok, err, unbalanced, ok_inj, err-ne-ok, >>=-eq-ok}
use bytedance_double_entry_l.Money.Currency.{Currency, is_supported}
use bytedance_double_entry_l.Ledger.Entry.{Leg, Entry, sum_legs, all_zero, validate}

-- The amount of a leg, if it is in the currency.
abbrev pub leg_in : Currency → Leg → ℤ
leg_in c l = if str_eq l.currency c then l.amount else pos 0

abbrev pub LegFits : Leg → Type 0
LegFits l = (l.amount ≢ pos 0) × (is_supported l.currency ≡ true)

-- every stored value is one that an int64 holds
abbrev Stored : List (Currency × ℤ) → Type 0
Stored m = All (λ p. wrap64 p.1 ≡ p.1) m

wrap64-wrap64 : (z : ℤ) → wrap64 (wrap64 z) ≡ wrap64 z
wrap64-wrap64 z = wrap64_id _ (wrap64-InRange z)

add_at-Stored : (c : Currency) (a : ℤ) (m : List (Currency × ℤ)) → Stored m → Stored (add_at c a m)
unfolding add64
add_at-Stored c a [] h = (wrap64-wrap64 _, tt)
add_at-Stored c a ((k, v) ∷ m) h = elim (Bool-cases (str_eq k c)) [
  | inl same ↦ rw same (wrap64-wrap64 _, h.1)
  | inr differs ↦ rw differs (h.0, add_at-Stored c a m h.1)
]

-- a currency's entry moves by the leg's amount in it, modulo 2^64
value_at-step :
    (c : Currency) (l : Leg) (m : List (Currency × ℤ)) (rest : ℤ)
    → wrap64 (value_at c (add_at l.currency l.amount m) +ℤ rest)
      ≡ wrap64 (value_at c m +ℤ (leg_in c l +ℤ rest))
unfolding add64
value_at-step c l m rest = elim (Bool-cases (str_eq l.currency c)) [
  | inl same ↦
      rw (value_at-add_at c l.currency l.amount m, same)
        (wrap64-+ℤ_left (value_at c m +ℤ l.amount) rest
          ∙ ap wrap64 (+ℤ_assoc (value_at c m) l.amount rest))
  | inr differs ↦ rw (value_at-add_at c l.currency l.amount m, differs, zero_+ℤ)
]

nonzero_amount : (l : Leg) → eqb_ℤ l.amount (pos 0) ≡ false → l.amount ≢ pos 0
nonzero_amount l h p = cc (eqb_ℤ_refl (pos 0))

amount_nonzero : (l : Leg) → l.amount ≢ pos 0 → eqb_ℤ l.amount (pos 0) ≡ false
amount_nonzero l h = elim (Bool-cases (eqb_ℤ l.amount (pos 0))) [
  | inl same ↦ absurd (h (eqb_ℤ_eq l.amount (pos 0) same))
  | inr differs ↦ differs
]

record Summed (legs : List Leg) (m m' : List (Currency × ℤ)) : Type 0 where
  legs_fit : All LegFits legs
  values : (c : Currency) → wrap64 (value_at c m') ≡ wrap64 (value_at c m +ℤ total (leg_in c) legs)
  stored : Stored m'
  distinct : KeysDistinct m'

sum_legs-Summed :
    (legs : List Leg) (m : List (Currency × ℤ)) {m' : List (Currency × ℤ)}
    → Stored m
    → KeysDistinct m
    → sum_legs legs m ≡ ok m'
    → Summed legs m m'
unfolding sum_legs
sum_legs-Summed [] m s d h =
    subst (Summed [] m) (ok_inj h)
      (record { legs_fit = tt; values = λ c. rw +ℤ_zero; stored = s; distinct = d })
sum_legs-Summed (l ∷ legs) m {m'} s d h = elim (Bool-cases (eqb_ℤ l.amount (pos 0))) [
  | inl zero_amount ↦ absurd (err-ne-ok (rw zero_amount at h))
  | inr nonzero ↦ elim (Bool-cases (is_supported l.currency)) [
    | inr unknown ↦ absurd (err-ne-ok (rw (nonzero, unknown) at h))
    | inl known ↦
        let tail : Summed legs (add_at l.currency l.amount m) m' =
          sum_legs-Summed legs (add_at l.currency l.amount m)
            (add_at-Stored l.currency l.amount m s) (add_at-KeysDistinct l.currency l.amount m d)
            (rw (nonzero, known) at h) in
        record {
          legs_fit = ((nonzero_amount l nonzero, known), tail.legs_fit);
          values = λ c. tail.values c ∙ value_at-step c l m (total (leg_in c) legs);
          stored = tail.stored;
          distinct = tail.distinct;
        }
  ]
]

sum_legs_total :
    (legs : List Leg) (m : List (Currency × ℤ))
    → All LegFits legs
    → (m' : List (Currency × ℤ)) × (sum_legs legs m ≡ ok m')
unfolding sum_legs
sum_legs_total [] m h = (m, refl)
sum_legs_total (l ∷ legs) m h =
    let (m', e) = sum_legs_total legs (add_at l.currency l.amount m) h.1 in
    (m', rw (amount_nonzero l h.0.0, h.0.1) e)

all_zero-values :
    (m : List (Currency × ℤ)) → all_zero m ≡ true → (c : Currency) → value_at c m ≡ pos 0
unfolding all_zero
all_zero-values [] h c = refl
all_zero-values ((k, v) ∷ m) h c = elim (Bool-cases (eqb_ℤ v (pos 0))) [
  | inl same ↦ ground (arith, eqb_ℤ_eq v (pos 0) same, all_zero-values m (rw same at h) c)
  | inr differs ↦ absurd (false≢true (rw differs at h))
]

all_zero_of_values : (m : List (Currency × ℤ)) → All (λ p. p.1 ≡ pos 0) m → all_zero m ≡ true
unfolding all_zero
all_zero_of_values [] h = refl
all_zero_of_values ((k, v) ∷ m) h = rw (h.0) (all_zero_of_values m h.1)

value_at-Stored :
    (c : Currency) (m : List (Currency × ℤ)) → Stored m → wrap64 (value_at c m) ≡ value_at c m
value_at-Stored c [] h = wrap64_id (pos 0) (omega arith)
value_at-Stored c ((k, v) ∷ m) h = elim (Bool-cases (str_eq k c)) [
  | inl same ↦ rw same h.0
  | inr differs ↦ rw differs (value_at-Stored c m h.1)
]

checked_zero :
    (m : List (Currency × ℤ))
    → ◌≡◌ {A = Result (Unit {0})} (if all_zero m then ok tt else err unbalanced) (ok tt)
    → all_zero m ≡ true
checked_zero m h = elim (Bool-cases (all_zero m)) [
  | inl zeros ↦ zeros
  | inr some_sum ↦ absurd (err-ne-ok (rw some_sum at h))
]

enough_legs : (n : ℕ) → 2 ≤ n → ltb n 2 ≡ false
enough_legs n h = ground arith

abbrev pub LegsNet : List Leg → Type 0
LegsNet legs = (c : Currency) → wrap64 (total (leg_in c) legs) ≡ pos 0

-- What an accepted entry satisfies.
pub record Accepted (e : Entry) : Type 0 where
  pub enough : 2 ≤ length e.legs
  pub legs_fit : All LegFits e.legs
  pub nets : LegsNet e.legs

accepted_net :
    (legs : List Leg) {m : List (Currency × ℤ)}
    → Summed legs [] m
    → (c : Currency) → value_at c m ≡ wrap64 (total (leg_in c) legs)
accepted_net legs {m} d c =
    sym (value_at-Stored c m d.stored) ∙ d.values c ∙ ap wrap64 (zero_+ℤ (total (leg_in c) legs))

validate-Accepted : (e : Entry) → validate e ≡ ok tt → Accepted e
unfolding validate
validate-Accepted e h = elim (Bool-cases (ltb (length e.legs) 2)) [
  | inl few ↦ absurd (err-ne-ok (rw few at h))
  | inr enough ↦
      let (sums, summed, checked) = >>=-eq-ok (sum_legs e.legs []) _ (rw enough at h) in
      let d : Summed e.legs [] sums = sum_legs-Summed e.legs [] tt tt summed in
      record {
        enough = ground arith;
        legs_fit = d.legs_fit;
        nets =
            λ c. sym (accepted_net e.legs d c) ∙ all_zero-values sums (checked_zero sums checked) c;
      }
]

Accepted-validate : (e : Entry) → Accepted e → validate e ≡ ok tt
unfolding validate
Accepted-validate e h =
    let (sums, summed) = sum_legs_total e.legs [] h.legs_fit in
    let d : Summed e.legs [] sums = sum_legs-Summed e.legs [] tt tt summed in
    let zeros : all_zero sums ≡ true =
      all_zero_of_values sums
        (zero_values sums d.distinct (λ c. accepted_net e.legs d c ∙ h.nets c)) in
    rw (enough_legs (length e.legs) h.enough, summed, zeros)

-- Validate accepts an entry exactly when it has two legs or more, no leg of amount zero or in an
-- unknown currency, and in every currency the signed amounts sum to 0 modulo 2^64.
pub validate_iff : (e : Entry) → (validate e ≡ ok tt) ↔ Accepted e
validate_iff e = (validate-Accepted e, Accepted-validate e)

-- If in every currency the exact sum of the amounts fits an int64, then what Validate accepts sums
-- to exactly zero in every currency.
pub validate_exact :
    (e : Entry)
    → ((c : Currency) → InRange (total (leg_in c) e.legs))
    → validate e ≡ ok tt
    → (c : Currency) → total (leg_in c) e.legs ≡ pos 0
validate_exact e fit h c = sym (wrap64_id _ (fit c)) ∙ (validate-Accepted e h).nets c
