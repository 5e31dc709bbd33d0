-- ===== src/Loadgen/Itoa.antt =====
-- internal/loadgen/checks.go: itoa.
use bytedance_double_entry_l.Prelude.{
  ℕ, zero, suc, ◌≡◌, ◌<◌, ◌≤◌, ◌+◌, ◌-◌, ◌/◌, ◌%◌, ◌^◌, refl, sym, ap, ◌∙◌, Bool-cases, true, false,
  inl, inr, [], ◌∷◌, ◌++◌, append_assoc, append-nil, ltb, ltb→lt, ◌==◌, arith,
}
use bytedance_double_entry_l.Prelude.Int.{eqb_ℤ, ltb_ℤ, ℤ, pos, negsuc}
use bytedance_double_entry_l.Prelude.Word.{InRange, neg64_negsuc}
use bytedance_double_entry_l.Money.Text.{Text, digits_from, digits, format_d}
use bytedance_double_entry_l.Loadgen.Metrics.{itoa_loop, itoa}

loop_ended : (f : ℕ) (b : Text) → itoa_loop f 0 b ≡ b
unfolding itoa_loop
loop_ended zero b = refl
loop_ended (suc f) b = refl

-- the loop puts the digits in front
itoa_loop-digits :
    (f v : ℕ) (b : Text) → v < f → (v ≡ 0 → ⊥) → itoa_loop f v b ≡ digits_from f v ++ b
unfolding itoa_loop digits_from
itoa_loop-digits zero v b lt positive = absurd (omega (arith, lt))
itoa_loop-digits (suc f) v b lt positive =
    let not_zero : (v == 0) ≡ false = ground (arith, positive) in
    elim (Bool-cases (ltb v 10)) [
      | inl small ↦
          let none_left : v / 10 ≡ 0 = omega (arith, ltb→lt v 10 small) in
          let same : v % 10 ≡ v = omega (arith, ltb→lt v 10 small) in
          rw (not_zero, small, none_left, same) (loop_ended f ((b'0' + v) ∷ b))
      | inr large ↦
          let more : v / 10 ≡ 0 → ⊥ = λ e. at_least (ground (arith, large)) e in
          rw (not_zero, large)
            (itoa_loop-digits f (v / 10) ((b'0' + v % 10) ∷ b) (ground (arith, lt, large)) more
              ∙ sym (append_assoc (digits_from f (v / 10)) ((b'0' + v % 10) ∷ []) b))
    ]
  where
    at_least : 10 ≤ v → v / 10 ≡ 0 → ⊥
    at_least le e = omega (arith, le, e)

all_digits : (n : ℕ) → itoa_loop (suc (suc n)) (suc n) [] ≡ digits_from (suc (suc n)) (suc n)
all_digits n =
    itoa_loop-digits (suc (suc n)) (suc n) [] (omega arith) (λ e. omega (arith, e)) ∙ append-nil _

-- itoa writes what fmt's %d does, for every int64 but the least, whose negation overflows.
pub itoa-format_d : (v : ℤ) → InRange v → (v ≡ negsuc (2 ^ 63 - 1) → ⊥) → itoa v ≡ format_d v
unfolding itoa format_d digits
itoa-format_d (pos zero) fits not_least = refl
itoa-format_d (pos (suc n)) fits not_least =
    let not_zero : eqb_ℤ (pos (suc n)) (pos 0) ≡ false = ground arith in
    let not_negative : ltb_ℤ (pos (suc n)) (pos 0) ≡ false = ground arith in
    rw (not_zero, not_negative) (all_digits n)
itoa-format_d (negsuc n) fits not_least =
    let small : suc n < 2 ^ 63 = in_range (λ e. not_least (ap negsuc e)) in
    let not_zero : eqb_ℤ (negsuc n) (pos 0) ≡ false = ground arith in
    let negative : ltb_ℤ (negsuc n) (pos 0) ≡ true = ground arith in
    rw (not_zero, negative, neg64_negsuc n small) (ap (λ t. b'-' ∷ t) (all_digits n))
  where
    in_range : (n ≡ 2 ^ 63 - 1 → ⊥) → suc n < 2 ^ 63
    in_range other = elim (Bool-cases (ltb (suc n) (2 ^ 63))) [
      | inl lt ↦ ltb→lt (suc n) (2 ^ 63) lt
      | inr ge ↦ absurd (other (ground (arith, ge, fits.1)))
    ]
