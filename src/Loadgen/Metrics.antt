-- ===== src/Loadgen/Metrics.antt =====
-- internal/loadgen/metrics.go, and itoa of checks.go.
-- A duration is its number of nanoseconds, which is not negative on the monotonic clock. The rank of
-- a percentile is computed in float64 by the processor: it is a parameter.
use bytedance_double_entry_l.Prelude.{
  ℕ, zero, suc, ◌+◌, ◌-◌, ◌/◌, ◌%◌, List, [], ◌∷◌, ◌++◌, length, leb, if◌then◌else◌, ◌==◌,
}
use bytedance_double_entry_l.Prelude.Int.{ℤ, pos, pos_part, eqb_ℤ, ltb_ℤ}
use bytedance_double_entry_l.Prelude.Word.{neg64}
use bytedance_double_entry_l.Prelude.Sort.{sort_by}
use bytedance_double_entry_l.Money.Text.{Text}

unfoldable pub add : ℕ → List ℕ → List ℕ
add d ds = ds ++ d ∷ []

unfoldable pub merge : List ℕ → List ℕ → List ℕ
merge other ds = ds ++ other

-- `sorted[i]`, where the index is in range
abbrev pub at : ℕ → List ℕ → ℕ
at i [] = 0
at zero (d ∷ ds) = d
at (suc i) (d ∷ ds) = at i ds

-- the rank, moved into the range of the indices
unfoldable pub clamp : ℤ → ℕ → ℕ
clamp rank n =
    let r = if ltb_ℤ rank (pos 0) then 0 else pos_part rank in if leb n r then n - 1 else r

-- `percentile`, by the rank that was computed for the number of samples
unfoldable pub percentile : (ℕ → ℤ) → List ℕ → ℕ
percentile rank [] = 0
percentile rank (d ∷ ds) =
    let sorted = sort_by (λ x. x) (d ∷ ds) in
    at (clamp (rank (length sorted)) (length sorted)) sorted

-- the loop of itoa, which fills its buffer from the end
unfoldable pub itoa_loop : ℕ → ℕ → Text → Text
itoa_loop zero v b = b
itoa_loop (suc fuel) v b =
    let rest = itoa_loop fuel (v / 10) ((b'0' + v % 10) ∷ b) in if v == 0 then b else rest

-- -v is v for the least int64, and the loop does not run
unfoldable pub itoa : ℤ → Text
itoa v =
    if eqb_ℤ v (pos 0)
    then b'0' ∷ []
    else let w = if ltb_ℤ v (pos 0) then neg64 v else v in
      let b = itoa_loop (suc (pos_part w)) (pos_part w) [] in
      if ltb_ℤ v (pos 0) then b'-' ∷ b else b
