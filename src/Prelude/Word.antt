-- ===== src/Prelude/Word.antt =====
-- Go's int64: an integer in [-2^63, 2^63), with the wrap-around of its arithmetic written out.
use Prim.Native.Nat.{ℕ, suc, ◌+◌, ◌-◌, ◌%◌, ◌^◌, ◌<◌}
use mathlib.Core.Path.{◌≡◌, refl, sym, ap, ◌∙◌}
use mathlib.Core.Logic.{◌⊎◌, inl, inr}
use native.Mathlib.Omega.{arith}
use bytedance_double_entry_l.Prelude.Tests.{ltb, if◌then◌else◌}
use bytedance_double_entry_l.Prelude.Int.{
  ℤ, pos, negsuc, pos_part, neg_part, ◌+ℤ◌, ◌*ℤ◌, neg, ◌<ℤ◌, +ℤ_parts, neg_parts, eq_of_parts,
}

-- The residue of an integer modulo 2^64, the bit pattern that a register holds.
unfoldable pub word : ℤ → ℕ
word (pos n) = n % 2 ^ 64
word (negsuc n) = 2 ^ 64 - 1 - n % 2 ^ 64

-- The integer that a bit pattern stands for in two's complement.
unfoldable pub signed : ℕ → ℤ
signed w = if ltb w (2 ^ 63) then pos w else negsuc (2 ^ 64 - 1 - w)

unfoldable pub wrap64 : ℤ → ℤ
unfolding word signed
wrap64 z = signed (word z)

abbrev pub InRange : ℤ → Type 0
InRange z = (pos_part z < 2 ^ 63) × (neg_part z < 2 ^ 63 + 1)

unfoldable pub add64 : ℤ → ℤ → ℤ
unfolding wrap64 ◌+ℤ◌
add64 a b = wrap64 (a +ℤ b)

unfoldable pub neg64 : ℤ → ℤ
unfolding wrap64 neg
neg64 a = wrap64 (neg a)

unfoldable pub mul64 : ℤ → ℤ → ℤ
unfolding wrap64 ◌*ℤ◌
mul64 a b = wrap64 (a *ℤ b)

pub word-lt : (z : ℤ) → word z < 2 ^ 64
unfolding word
word-lt (pos n) = omega arith
word-lt (negsuc n) = omega arith

pub word_parts : (z : ℤ) → (word z + neg_part z) % 2 ^ 64 ≡ pos_part z % 2 ^ 64
unfolding word
word_parts (pos n) = omega arith
word_parts (negsuc n) = omega arith

pub word-signed : (w : ℕ) → w < 2 ^ 64 → word (signed w) ≡ w
unfolding word signed
word-signed w h = ground arith

pub wrap64-InRange : (z : ℤ) → InRange (wrap64 z)
unfolding wrap64
wrap64-InRange (pos n) = ground arith
wrap64-InRange (negsuc n) = ground arith

pub wrap64_id : (z : ℤ) → InRange z → wrap64 z ≡ z
unfolding wrap64
wrap64_id (pos n) h = ground arith
wrap64_id (negsuc n) h = ground arith

pub word-wrap64 : (z : ℤ) → word (wrap64 z) ≡ word z
unfolding wrap64
word-wrap64 z = word-signed (word z) (word-lt z)

pub parts_excl : (z : ℤ) → (pos_part z ≡ 0) ⊎ (neg_part z ≡ 0)
parts_excl (pos n) = inr refl
parts_excl (negsuc n) = inl refl

pub word-+ℤ : (a b : ℤ) → word (a +ℤ b) ≡ (word a + word b) % 2 ^ 64
word-+ℤ a b =
    omega (arith, +ℤ_parts a b, word_parts a, word_parts b, word_parts (a +ℤ b), word-lt (a +ℤ b))

-- Two integers in range with one bit pattern are the same.
pub eq_of_word : (a b : ℤ) → InRange a → InRange b → word a ≡ word b → a ≡ b
eq_of_word a b ha hb e =
    eq_of_parts a b (omega (arith, word_parts a, word_parts b, parts_excl a, parts_excl b))

pub wrap64_eq : (a b : ℤ) → word a ≡ word b → wrap64 a ≡ wrap64 b
unfolding wrap64
wrap64_eq a b e = ap signed e

pub word_of_wrap64_eq : (a b : ℤ) → wrap64 a ≡ wrap64 b → word a ≡ word b
word_of_wrap64_eq a b e = sym (word-wrap64 a) ∙ ap word e ∙ word-wrap64 b

-- A running sum may be wrapped at every step or once at the end.
pub wrap64-+ℤ_left : (a b : ℤ) → wrap64 (wrap64 a +ℤ b) ≡ wrap64 (a +ℤ b)
wrap64-+ℤ_left a b =
    wrap64_eq (wrap64 a +ℤ b) (a +ℤ b)
      (word-+ℤ (wrap64 a) b ∙ ap (λ w. (w + word b) % 2 ^ 64) (word-wrap64 a) ∙ sym (word-+ℤ a b))

pub wrap64-+ℤ_right : (a b : ℤ) → wrap64 (a +ℤ wrap64 b) ≡ wrap64 (a +ℤ b)
wrap64-+ℤ_right a b =
    wrap64_eq (a +ℤ wrap64 b) (a +ℤ b)
      (word-+ℤ a (wrap64 b) ∙ ap (λ w. (word a + w) % 2 ^ 64) (word-wrap64 b) ∙ sym (word-+ℤ a b))

-- Negating a positive amount cannot overflow.
pub neg64_pos : (a : ℤ) → InRange a → pos 0 <ℤ a → neg64 a ≡ neg a
unfolding neg64
neg64_pos a h p = wrap64_id (neg a) (omega (arith, neg_parts a, parts_excl a, parts_excl (neg a)))

pub neg64_negsuc : (n : ℕ) → suc n < 2 ^ 63 → neg64 (negsuc n) ≡ pos (suc n)
unfolding neg64
neg64_negsuc n h = ground arith

pub neg64-suc : (n : ℕ) → suc n < 2 ^ 63 → neg64 (pos (suc n)) ≡ negsuc n
unfolding neg64
neg64-suc n h = ground arith
