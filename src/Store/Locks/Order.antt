-- ===== src/Store/Locks/Order.antt =====
-- internal/store/postings.go: the ids that distinctSortedAccountIDs and unionSortedIDs return.
use bytedance_double_entry_l.Prelude.{
  ℕ, ◌≡◌, ◌<◌, Bool-cases, false, inl, inr, List, [], ◌∷◌, ◌++◌, map, All, All-imp, All-append, leb,
  ◌==◌, arith, if◌then◌else◌,
}
use bytedance_double_entry_l.Prelude.Sort.{sort_by, insert_by, insert_by-All, sort_by-All}
use bytedance_double_entry_l.Money.Currency.{Currency}
use bytedance_double_entry_l.Ledger.Entry.{Leg}
use bytedance_double_entry_l.Store.Posting.{mem_id, distinct_ids, distinct_sorted_account_ids}
use bytedance_double_entry_l.Store.Settlement.{account_of, union_ids, union_sorted_ids}

abbrev pub IsAscending : List ℕ → Type 0
IsAscending [] = Unit {0}
IsAscending (i ∷ is) = All (λ j. i < j) is × IsAscending is

abbrev Differs : ℕ → List ℕ → Type 0
Differs i is = All (λ j. (j == i) ≡ false) is

abbrev IsDistinct : List ℕ → Type 0
IsDistinct [] = Unit {0}
IsDistinct (i ∷ is) = Differs i is × IsDistinct is

mem_id-Differs : (i : ℕ) (is : List ℕ) → mem_id i is ≡ false → Differs i is
mem_id-Differs i [] h = tt
mem_id-Differs i (j ∷ is) h = (ground (arith, h), mem_id-Differs i is (ground (arith, h)))

IsDistinct-append : (i : ℕ) (is : List ℕ) → Differs i is → IsDistinct is → IsDistinct (is ++ i ∷ [])
IsDistinct-append i [] h k = (tt, tt)
IsDistinct-append i (j ∷ is) h k = (
  All-append (λ m. (m == j) ≡ false) is (i ∷ []) k.0 (ground (arith, h.0), tt),
  IsDistinct-append i is h.1 k.1,
)

-- an id is added unless it is there
add_new-IsDistinct :
    (i : ℕ) (is : List ℕ) → IsDistinct is → IsDistinct (if mem_id i is then is else is ++ i ∷ [])
add_new-IsDistinct i is h = elim (Bool-cases (mem_id i is)) [
  | inl seen ↦ rw seen h
  | inr new ↦ rw new (IsDistinct-append i is (mem_id-Differs i is new) h)
]

distinct_ids-IsDistinct :
    (legs : List Leg) (is : List ℕ) → IsDistinct is → IsDistinct (distinct_ids legs is)
unfolding distinct_ids
distinct_ids-IsDistinct [] is h = h
distinct_ids-IsDistinct (l ∷ legs) is h =
    distinct_ids-IsDistinct legs _ (add_new-IsDistinct l.account_id is h)

union_ids-IsDistinct : (more is : List ℕ) → IsDistinct is → IsDistinct (union_ids more is)
unfolding union_ids
union_ids-IsDistinct [] is h = h
union_ids-IsDistinct (i ∷ more) is h = union_ids-IsDistinct more _ (add_new-IsDistinct i is h)

insert_by-IsAscending :
    (i : ℕ) (is : List ℕ) → Differs i is → IsAscending is → IsAscending (insert_by (λ i. i) i is)
insert_by-IsAscending i [] h k = (tt, tt)
insert_by-IsAscending i (j ∷ is) h k = elim (Bool-cases (leb i j)) [
  | inl le ↦
      let lt : i < j = ground (arith, h.0) in
      rw le ((lt, All-imp (λ m below. omega (arith, lt, below)) is k.0), k)
  | inr gt ↦
      let lt : j < i = ground (arith, h.0) in
      rw gt (insert_by-All (λ i. i) (λ m. j < m) i is lt k.0, insert_by-IsAscending i is h.1 k.1)
]

sort_by-IsAscending : (is : List ℕ) → IsDistinct is → IsAscending (sort_by (λ i. i) is)
sort_by-IsAscending [] h = tt
sort_by-IsAscending (i ∷ is) h =
    insert_by-IsAscending i (sort_by (λ i. i) is) (sort_by-All (λ i. i) _ is h.0)
      (sort_by-IsAscending is h.1)

pub distinct_sorted_account_ids-IsAscending :
    (legs : List Leg) → IsAscending (distinct_sorted_account_ids legs)
unfolding distinct_sorted_account_ids
distinct_sorted_account_ids-IsAscending legs =
    sort_by-IsAscending (distinct_ids legs []) (distinct_ids-IsDistinct legs [] tt)

pub union_sorted_ids-IsAscending :
    (merchants : List ℕ) (payouts : List (Currency × ℕ))
    → IsAscending (union_sorted_ids merchants payouts)
unfolding union_sorted_ids
union_sorted_ids-IsAscending merchants payouts =
    let paid : List ℕ = map account_of payouts in
    sort_by-IsAscending (union_ids paid (union_ids merchants []))
      (union_ids-IsDistinct paid (union_ids merchants []) (union_ids-IsDistinct merchants [] tt))
