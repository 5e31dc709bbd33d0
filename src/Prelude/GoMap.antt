-- ===== src/Prelude/GoMap.antt =====
-- A Go map from comparable keys, as an association list with one entry a key.
use mathlib.Core.Path.{◌≡◌, refl}
use mathlib.Core.Logic.{◌↔◌}
use mathlib.Core.Bool.{Bool, true, false}
use mathlib.Core.List.{List, [], ◌∷◌}
use native.Mathlib.Omega.{arith}
use Prim.Native.Nat.{ℕ}
use Prim.Native.String.{String}
use text.Mathlib.Text.{◌==◌ as str_eq}
use text.Mathlib.TextEquality.{eq_iff}
use bytedance_double_entry_l.Prelude.Tests.{◌==◌ as nat_eq, ==_iff, if◌then◌else◌}
use bytedance_double_entry_l.Prelude.Lists.{All}
use bytedance_double_entry_l.Prelude.Int.{ℤ, pos}
use bytedance_double_entry_l.Prelude.Word.{add64}

-- The comparison of keys.
pub record Eq {ℓ} (K : Type ℓ) : Type ℓ where
  pub beq : K → K → Bool
  pub beq_iff : (a b : K) → (beq a b ≡ true) ↔ (a ≡ b)

instance abbrev pub id_eq : Eq ℕ
id_eq = record { beq = nat_eq; beq_iff = ==_iff }

instance abbrev pub string_eq : Eq String
string_eq = record { beq = str_eq; beq_iff = eq_iff }

module _ {ℓ} {K : Type ℓ} ⦃e : Eq K⦄ where
  -- `m[k]` at a map of int64, which is 0 at a missing key
  abbrev pub value_at : K → List (K × ℤ) → ℤ
  value_at k [] = pos 0
  value_at k ((j, v) ∷ m) = if e.beq j k then v else value_at k m

  -- `m[k] += a`
  abbrev pub add_at : K → ℤ → List (K × ℤ) → List (K × ℤ)
  add_at k a [] = (k, add64 (pos 0) a) ∷ []
  add_at k a ((j, v) ∷ m) = if e.beq j k then (j, add64 v a) ∷ m else (j, v) ∷ add_at k a m

  pub value_at-add_at :
      (j k : K) (a : ℤ) (m : List (K × ℤ))
      → value_at j (add_at k a m) ≡ (if e.beq k j then add64 (value_at j m) a else value_at j m)
  value_at-add_at j k a [] = refl
  value_at-add_at j k a ((i, v) ∷ m) =
      ground (arith, value_at-add_at j k a m, e.beq_iff i k, e.beq_iff i j, e.beq_iff k j)

  -- no entry for `k`
  abbrev pub Lacks : K → List (K × ℤ) → Type 0
  Lacks k m = All (λ p. e.beq k p.0 ≡ false) m

  abbrev pub KeysDistinct : List (K × ℤ) → Type 0
  KeysDistinct [] = Unit
  KeysDistinct (p ∷ m) = Lacks p.0 m × KeysDistinct m

  pub beq_refl : (k : K) → e.beq k k ≡ true
  beq_refl k = (e.beq_iff k k).1 refl

  value_at-Lacks :
      (k j : K) (m : List (K × ℤ)) → Lacks k m → e.beq k j ≡ true → value_at j m ≡ pos 0
  value_at-Lacks k j [] h q = refl
  value_at-Lacks k j ((i, v) ∷ m) h q =
      ground (arith, value_at-Lacks k j m h.1 q, e.beq_iff k i, e.beq_iff i j, e.beq_iff k j)

  add_at-Lacks :
      (i k : K) (a : ℤ) (m : List (K × ℤ)) → Lacks i m → e.beq i k ≡ false → Lacks i (add_at k a m)
  add_at-Lacks i k a [] h q = (q, tt)
  add_at-Lacks i k a ((j, v) ∷ m) h q = ground (arith, add_at-Lacks i k a m h.1 q)

  pub add_at-KeysDistinct :
      (k : K) (a : ℤ) (m : List (K × ℤ)) → KeysDistinct m → KeysDistinct (add_at k a m)
  add_at-KeysDistinct k a [] h = (tt, tt)
  add_at-KeysDistinct k a ((j, v) ∷ m) h =
      ground (arith, add_at-KeysDistinct k a m h.1, add_at-Lacks j k a m h.0)

  -- every value of the map is zero, read entry by entry or key by key
  pub zero_values :
      (m : List (K × ℤ))
      → KeysDistinct m
      → ((k : K) → value_at k m ≡ pos 0)
      → All (λ p. p.1 ≡ pos 0) m
  zero_values [] d h = tt
  zero_values ((k, v) ∷ m) d h = (rw beq_refl at (h k), zero_values m d.1 tail_zero)
    where
      tail_zero : (j : K) → value_at j m ≡ pos 0
      tail_zero j = ground (arith, h j, value_at-Lacks k j m d.0)
