-- ===== src/Prelude/Sort.antt =====
-- ORDER BY and sort.Slice on a key: an insertion sort.
use mathlib.Core.Path.{◌≡◌, refl, ap, ◌∙◌}
use mathlib.Core.Bool.{Bool, ◌||◌}
use mathlib.Core.List.{List, [], ◌∷◌}
use native.Mathlib.Omega.{arith}
use Prim.Native.Nat.{ℕ, suc, ◌≤◌}
use bytedance_double_entry_l.Prelude.Tests.{leb, leb→le, if◌then◌else◌, Bool-cases}
use mathlib.Core.Logic.{inl, inr}
use bytedance_double_entry_l.Prelude.Lists.{length, All, any_row}

module _ {ℓ} {A : Type ℓ} (key : A → ℕ) where
  abbrev pub insert_by : A → List A → List A
  insert_by x [] = x ∷ []
  insert_by x (y ∷ ys) = if leb (key x) (key y) then x ∷ y ∷ ys else y ∷ insert_by x ys

  abbrev pub sort_by : List A → List A
  sort_by [] = []
  sort_by (x ∷ xs) = insert_by x (sort_by xs)

  pub length-insert_by : (x : A) (xs : List A) → length (insert_by x xs) ≡ suc (length xs)
  length-insert_by x [] = refl
  length-insert_by x (y ∷ ys) = ground (arith, length-insert_by x ys)

  pub length-sort_by : (xs : List A) → length (sort_by xs) ≡ length xs
  length-sort_by [] = refl
  length-sort_by (x ∷ xs) = length-insert_by x (sort_by xs) ∙ ap suc (length-sort_by xs)

  pub insert_by-All {κ} :
      (P : A → Type κ) (x : A) (xs : List A) → P x → All P xs → All P (insert_by x xs)
  insert_by-All P x [] p h = (p, tt)
  insert_by-All P x (y ∷ ys) p h = elim (Bool-cases (leb (key x) (key y))) [
    | inl le ↦ rw le (p, h)
    | inr gt ↦ rw gt (h.0, insert_by-All P x ys p h.1)
  ]

  pub sort_by-All {κ} : (P : A → Type κ) (xs : List A) → All P xs → All P (sort_by xs)
  sort_by-All P [] h = tt
  sort_by-All P (x ∷ xs) h = insert_by-All P x (sort_by xs) h.0 (sort_by-All P xs h.1)

  -- each key is at most the next
  abbrev pub IsSorted : List A → Type 0
  IsSorted [] = Unit
  IsSorted (x ∷ xs) = All (λ y. key x ≤ key y) xs × IsSorted xs

  insert_by-IsSorted : (x : A) (xs : List A) → IsSorted xs → IsSorted (insert_by x xs)
  insert_by-IsSorted x [] h = (tt, tt)
  insert_by-IsSorted x (y ∷ ys) h = elim (Bool-cases (leb (key x) (key y))) [
    | inl le ↦ rw le ((leb→le _ _ le, All-le y ys h.0 (leb→le _ _ le)), h)
    | inr gt ↦
        rw gt
          (insert_by-All (λ z. key y ≤ key z) x ys (ground arith) h.0, insert_by-IsSorted x ys h.1)
  ]
    where
      All-le :
          (y : A) (ys : List A)
          → All (λ z. key y ≤ key z) ys
          → key x ≤ key y
          → All (λ z. key x ≤ key z) ys
      All-le y [] h le = tt
      All-le y (z ∷ zs) h le = (omega arith, All-le y zs h.1 le)

  pub sort_by-IsSorted : (xs : List A) → IsSorted (sort_by xs)
  sort_by-IsSorted [] = tt
  sort_by-IsSorted (x ∷ xs) = insert_by-IsSorted x (sort_by xs) (sort_by-IsSorted xs)

  insert_by-any_row :
      (p : A → Bool) (x : A) (xs : List A) → any_row p (insert_by x xs) ≡ (p x || any_row p xs)
  insert_by-any_row p x [] = refl
  insert_by-any_row p x (y ∷ ys) = ground (arith, insert_by-any_row p x ys)

  -- sorting loses and adds nothing
  pub any_row-sort_by : (p : A → Bool) (xs : List A) → any_row p (sort_by xs) ≡ any_row p xs
  any_row-sort_by p [] = refl
  any_row-sort_by p (x ∷ xs) =
      insert_by-any_row p x (sort_by xs) ∙ ap (λ (b : Bool). p x || b) (any_row-sort_by p xs)
