-- ===== src/Loadgen/Percentiles.antt =====
-- internal/loadgen/metrics.go: percentile.
use bytedance_double_entry_l.Prelude.{
  ℕ, zero, suc, ◌≡◌, ◌≤◌, ◌<◌, refl, sym, subst, ◌∙◌, Bool, true, ◌||◌, List, [], ◌∷◌, length,
  any_row, All, arith, ◌==◌, ==_refl,
}
use bytedance_double_entry_l.Prelude.Int.{ℤ, ◌≤ℤ◌}
use bytedance_double_entry_l.Prelude.Sort.{
  sort_by, length-sort_by, any_row-sort_by, IsSorted, sort_by-IsSorted,
}
use bytedance_double_entry_l.Loadgen.Metrics.{at, clamp, percentile}

or_later : (a : Bool) {b : Bool} → b ≡ true → (a || b) ≡ true
or_later a h = ground arith

at-found : (i : ℕ) (ds : List ℕ) → i < length ds → any_row (λ x. x == at i ds) ds ≡ true
at-found i [] h = absurd (omega (arith, h))
at-found zero (d ∷ ds) h = rw (==_refl d) refl
at-found (suc i) (d ∷ ds) h = or_later (d == at i ds) (at-found i ds (omega (arith, h)))

at-All : (P : ℕ → Type 0) (i : ℕ) (ds : List ℕ) → i < length ds → All P ds → P (at i ds)
at-All P i [] h all = absurd (omega (arith, h))
at-All P zero (d ∷ ds) h all = all.0
at-All P (suc i) (d ∷ ds) h all = at-All P i ds (omega (arith, h)) all.1

at-IsSorted :
    (i j : ℕ) (ds : List ℕ) → i ≤ j → j < length ds → IsSorted (λ x. x) ds → at i ds ≤ at j ds
at-IsSorted i j [] le lt h = absurd (omega (arith, lt))
at-IsSorted zero zero (d ∷ ds) le lt h = omega arith
at-IsSorted zero (suc j) (d ∷ ds) le lt h = at-All (λ y. d ≤ y) j ds (omega (arith, lt)) h.0
at-IsSorted (suc i) zero (d ∷ ds) le lt h = absurd (omega (arith, le))
at-IsSorted (suc i) (suc j) (d ∷ ds) le lt h =
    at-IsSorted i j ds (omega (arith, le)) (omega (arith, lt)) h.1

clamp-lt : (rank : ℤ) (n : ℕ) → clamp rank (suc n) < suc n
unfolding clamp
clamp-lt rank n = ground arith

clamp-le : (a b : ℤ) (n : ℕ) → a ≤ℤ b → clamp a (suc n) ≤ clamp b (suc n)
unfolding clamp
clamp-le a b n h = ground arith

-- Whatever rank the floating-point computation gives, the percentile of some samples is one of
-- them, and a greater rank does not give a smaller percentile.
pub percentile_drawn :
    (d : ℕ) (ds : List ℕ) (rank higher : ℕ → ℤ)
    → rank (suc (length ds)) ≤ℤ higher (suc (length ds))
    → (any_row (λ x. x == percentile rank (d ∷ ds)) (d ∷ ds) ≡ true)
      × (percentile rank (d ∷ ds) ≤ percentile higher (d ∷ ds))
unfolding percentile
percentile_drawn d ds rank higher h =
    let sorted = sort_by (λ x. x) (d ∷ ds) in
    let n : length sorted ≡ suc (length ds) = length-sort_by (λ x. x) (d ∷ ds) in
    let lt : (r : ℤ) → clamp r (length sorted) < length sorted =
      λ r. subst (λ m. clamp r m < m) (sym n) (clamp-lt r (length ds)) in
    let le : clamp (rank (length sorted)) (length sorted)
        ≤ clamp (higher (length sorted)) (length sorted) =
      subst (λ m. clamp (rank m) m ≤ clamp (higher m) m) (sym n) (clamp-le _ _ (length ds) h) in
    (
      sym (
            any_row-sort_by (λ x. x)
              (λ x. x == at (clamp (rank (length sorted)) (length sorted)) sorted) (d ∷ ds))
          ∙ at-found (clamp (rank (length sorted)) (length sorted)) sorted
              (lt (rank (length sorted))),
      at-IsSorted _ _ sorted le (lt (higher (length sorted))) (sort_by-IsSorted (λ x. x) (d ∷ ds)),
    )
