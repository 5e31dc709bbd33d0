-- ===== src/Store/Locks/Progress.antt =====
-- internal/store: no deadlock among transactions that take their locks in the order of the code.
use bytedance_double_entry_l.Prelude.{
  ℕ, suc, ◌≡◌, ◌<◌, ◌≤◌, ◌+◌, refl, ap, Bool-cases, ◌⊎◌, inl, inr, none, some, List, [], ◌∷◌, ◌++◌,
  map, All, All-imp, All-append, All-zip, leb, leb→le, arith,
}
use bytedance_double_entry_l.Store.Posting.{distinct_sorted_account_ids}
use bytedance_double_entry_l.Store.Settlement.{union_sorted_ids}
use bytedance_double_entry_l.Store.Locks.{
  Lock, idempotency_key, account, posting_locks, settlement_locks, Job, posting, settlement,
  locks_of, Worker, Step, take_lock, end, Steps, no_step, then_step, begin_all, work,
}
use bytedance_double_entry_l.Store.Locks.Order.{
  IsAscending, distinct_sorted_account_ids-IsAscending, union_sorted_ids-IsAscending,
}

-- The order of the locks: keys first, then accounts by id.
abbrev rank : Lock → ℕ
rank (idempotency_key k) = 0
rank (account i) = suc i

abbrev IsOrdered : List Lock → Type 0
IsOrdered [] = Unit {0}
IsOrdered (l ∷ ls) = All (λ m. rank l < rank m) ls × IsOrdered ls

-- A transaction wants locks in the order, all of them above those it holds.
abbrev IsOrderly : Worker → Type 0
IsOrderly w = All (λ h. All (λ m. rank h < rank m) w.wanted) w.held × IsOrdered w.wanted

accounts-IsOrdered : (is : List ℕ) → IsAscending is → IsOrdered (map account is)
accounts-IsOrdered [] h = tt
accounts-IsOrdered (i ∷ is) h = (above is h.0, accounts-IsOrdered is h.1)
  where
    above : (js : List ℕ) → All (λ j. i < j) js → All (λ m. suc i < rank m) (map account js)
    above [] k = tt
    above (j ∷ js) k = (omega (arith, k.0), above js k.1)

accounts_above_key : (is : List ℕ) → All (λ m. 0 < rank m) (map account is)
accounts_above_key [] = tt
accounts_above_key (i ∷ is) = (omega arith, accounts_above_key is)

locks_of-IsOrdered : (j : Job) → IsOrdered (locks_of j)
unfolding locks_of posting_locks settlement_locks
locks_of-IsOrdered (posting none legs) =
    accounts-IsOrdered (distinct_sorted_account_ids legs)
      (distinct_sorted_account_ids-IsAscending legs)
locks_of-IsOrdered (posting (some key) legs) = (
  accounts_above_key (distinct_sorted_account_ids legs),
  accounts-IsOrdered (distinct_sorted_account_ids legs)
      (distinct_sorted_account_ids-IsAscending legs),
)
locks_of-IsOrdered (settlement merchants payouts) =
    accounts-IsOrdered (union_sorted_ids merchants payouts)
      (union_sorted_ids-IsAscending merchants payouts)

begin_all-IsOrderly : (jobs : List Job) → All IsOrderly (begin_all jobs)
unfolding begin_all
begin_all-IsOrderly [] = tt
begin_all-IsOrderly (j ∷ jobs) = ((tt, locks_of-IsOrdered j), begin_all-IsOrderly jobs)

All-parts {ℓ κ} :
    {A : Type ℓ} (P : A → Type κ) (xs : List A) (y : A) (zs : List A)
    → All P (xs ++ y ∷ zs)
    → All P xs × P y × All P zs
All-parts P [] y zs h = (tt, h.0, h.1)
All-parts P (x ∷ xs) y zs h = let (a, b, c) = All-parts P xs y zs h.1 in ((h.0, a), b, c)

All-insert {ℓ κ} :
    {A : Type ℓ} (P : A → Type κ) (xs : List A) (y : A) (zs : List A)
    → P y
    → All P (xs ++ zs)
    → All P (xs ++ y ∷ zs)
All-insert P [] y zs p h = (p, h)
All-insert P (x ∷ xs) y zs p h = (h.0, All-insert P xs y zs p h.1)

All-remove {ℓ κ} :
    {A : Type ℓ} (P : A → Type κ) (xs : List A) (y : A) (zs : List A)
    → All P (xs ++ y ∷ zs)
    → All P (xs ++ zs)
All-remove P [] y zs h = h.1
All-remove P (x ∷ xs) y zs h = (h.0, All-remove P xs y zs h.1)

-- the lock that a transaction wants next is not above a rank
abbrev WantsAtMost : ℕ → List Lock → Type 0
WantsAtMost n [] = ⊥
WantsAtMost n (m ∷ wanted) = rank m ≤ n

-- Some transaction can end, or one wants a lock that is as high as any that is wanted next.
data Found : List Worker → Type 0 where
  all_ended : Found []
  ended :
      (before after : List Worker) (held : List Lock)
      → Found (before ++ record { held = held; wanted = [] } ∷ after)
  highest :
      (before after : List Worker) (held wanted : List Lock) (l : Lock)
      → All (λ (w : Worker). WantsAtMost (rank l) w.wanted) (before ++ after)
      → Found (before ++ record { held = held; wanted = l ∷ wanted } ∷ after)

find_one :
    (held wanted : List Lock) (ws : List Worker)
    → Found ws
    → Found (record { held = held; wanted = wanted } ∷ ws)
find_one held [] ws found = ended [] ws held
find_one held (m ∷ wanted) ws all_ended = highest [] [] held wanted m tt
find_one held (m ∷ wanted) ws (ended before after h) =
    ended (record { held = held; wanted = m ∷ wanted } ∷ before) after h
find_one held (m ∷ wanted) ws (highest before after h more l below) =
    elim (Bool-cases (leb (rank m) (rank l))) [
      | inl le ↦
          highest (record { held = held; wanted = m ∷ wanted } ∷ before) after h more l
            (leb→le _ _ le, below)
      | inr gt ↦
          let lt : rank l ≤ rank m = ground (arith, gt) in
          highest [] (before ++ record { held = h; wanted = l ∷ more } ∷ after) held wanted m (
            All-insert (λ (w : Worker). WantsAtMost (rank m) w.wanted) before
              (record { held = h; wanted = l ∷ more }) after lt
              (All-imp (λ (w : Worker) at_most. raise w.wanted lt at_most) (before ++ after) below))
    ]
  where
    raise : (ls : List Lock) {a b : ℕ} → a ≤ b → WantsAtMost a ls → WantsAtMost b ls
    raise [] le h = h
    raise (x ∷ ls) le h = omega (arith, le, h)

find : (ws : List Worker) → Found ws
find [] = all_ended
find (w ∷ ws) = find_one w.held w.wanted ws (find ws)

-- what wants no lock above this one does not hold it
not_held :
    (l : Lock) (held wanted : List Lock)
    → All (λ h. All (λ m. rank h < rank m) wanted) held
    → WantsAtMost (rank l) wanted
    → All (λ (m : Lock). m ≡ l → ⊥) held
not_held l held [] above none_wanted = absurd none_wanted
not_held l [] (m ∷ wanted) above at_most = tt
not_held l (h ∷ held) (m ∷ wanted) above at_most =
    (λ same. differ (ap rank same) (above.0.0), not_held l held (m ∷ wanted) above.1 at_most)
  where
    differ : rank h ≡ rank l → rank h < rank m → ⊥
    differ e lt = omega (arith, e, lt, at_most)

progress : (ws : List Worker) → All IsOrderly ws → (ws ≡ []) ⊎ ((us : List Worker) × Step ws us)
progress ws orderly = go (find ws) orderly
  where
    go :
        {ws : List Worker}
        → Found ws
        → All IsOrderly ws
        → (ws ≡ []) ⊎ ((us : List Worker) × Step ws us)
    go all_ended h = inl refl
    go (ended before after held) h = inr (_, end before after held)
    go (highest before after held wanted l below) h = inr (
      _,
      take_lock before after held wanted l (
          All-imp (λ (w : Worker) p. not_held l w.held w.wanted p.0.0 p.1) (before ++ after)
            (All-zip IsOrderly (λ (w : Worker). WantsAtMost (rank l) w.wanted) (before ++ after)
              (All-remove IsOrderly before _ after h) below)),
    )

Step-IsOrderly : {ws us : List Worker} → Step ws us → All IsOrderly ws → All IsOrderly us
Step-IsOrderly (end before after held) h = All-remove IsOrderly before _ after h
Step-IsOrderly (take_lock before after held wanted l free) h =
    let (a, w, c) =
      All-parts IsOrderly before (record { held = held; wanted = l ∷ wanted }) after h in
    All-append IsOrderly before _ a (((w.1.0, All-imp (λ x above. above.1) held w.0), w.1.1), c)

work-append : (ws us : List Worker) → work (ws ++ us) ≡ work ws + work us
work-append [] us = omega arith
work-append (w ∷ ws) us = let e = work-append ws us in omega (arith, e)

-- a step does one unit of the work
Step-work : {ws us : List Worker} → Step ws us → work ws ≡ suc (work us)
Step-work (end before after held) =
    let a = work-append before (record { held = held; wanted = [] } ∷ after) in
    let b = work-append before after in omega (arith, a, b)
Step-work (take_lock before after held wanted l free) =
    let a = work-append before (record { held = held; wanted = l ∷ wanted } ∷ after) in
    let b = work-append before (record { held = l ∷ held; wanted = wanted } ∷ after) in
    omega (arith, a, b)

Steps-IsOrderly :
    {ws us : List Worker} {n : ℕ} → Steps ws n us → All IsOrderly ws → All IsOrderly us
Steps-IsOrderly no_step h = h
Steps-IsOrderly (then_step before s) h = Step-IsOrderly s (Steps-IsOrderly before h)

Steps-work : {ws us : List Worker} {n : ℕ} → Steps ws n us → n + work us ≡ work ws
Steps-work no_step = omega arith
Steps-work (then_step before s) =
    let a = Steps-work before in let b = Step-work s in omega (arith, a, b)

-- However the postings and batches interleave, they never deadlock: in every state that can be
-- reached all transactions have ended or one of them can go on, and a run has as many steps as
-- there are locks to take and transactions to end, so that every run ends with all transactions.
pub locks_never_deadlock :
    (jobs : List Job) (n : ℕ) (ws : List Worker)
    → Steps (begin_all jobs) n ws
    → ((ws ≡ []) ⊎ ((us : List Worker) × Step ws us)) × (n + work ws ≡ work (begin_all jobs))
locks_never_deadlock jobs n ws run =
    (progress ws (Steps-IsOrderly run (begin_all-IsOrderly jobs)), Steps-work run)
