-- ===== src/Prelude/Lists.antt =====
-- Lists measured by native numbers, predicates on all items, filters, and integer sums over items.
use Prim.Native.Nat.{ℕ, zero, suc, ◌+◌}
use mathlib.Core.Path.{◌≡◌, refl, sym, subst}
use mathlib.Core.Bool.{Bool, true, false, ◌||◌, false≢true}
use mathlib.Core.Option.{Option, none, some}
use mathlib.Core.List.{List, [], ◌∷◌, ◌++◌, map}
use mathlib.Core.Logic.{inl, inr}
use native.Mathlib.Omega.{arith}
use bytedance_double_entry_l.Prelude.Tests.{if◌then◌else◌, Bool-cases, some_inj}
use bytedance_double_entry_l.Prelude.Int.{ℤ, pos, ◌+ℤ◌, int_laws}

module _ {ℓ} {A : Type ℓ} where
  abbrev pub length : List A → ℕ
  length [] = 0
  length (x ∷ xs) = suc (length xs)

  pub length-append : (xs ys : List A) → length (xs ++ ys) ≡ length xs + length ys
  length-append [] ys = omega arith
  length-append (x ∷ xs) ys = omega (arith, length-append xs ys)

  -- the rows that a WHERE clause keeps, in table order
  abbrev pub where_rows : (A → Bool) → List A → List A
  where_rows p [] = []
  where_rows p (x ∷ xs) = let rest = where_rows p xs in if p x then x ∷ rest else rest

  -- the first row that a WHERE clause keeps
  abbrev pub find_row : (A → Bool) → List A → Option A
  find_row p [] = none
  find_row p (x ∷ xs) = let rest = find_row p xs in if p x then some x else rest

  abbrev pub any_row : (A → Bool) → List A → Bool
  any_row p [] = false
  any_row p (x ∷ xs) = p x || any_row p xs

  abbrev pub All {κ} : (A → Type κ) → List A → Type κ
  All P [] = Unit
  All P (x ∷ xs) = P x × All P xs

  -- SUM(f) over rows, exact, with 0 for no rows
  abbrev pub total : (A → ℤ) → List A → ℤ
  total f [] = pos 0
  total f (x ∷ xs) = f x +ℤ total f xs

  pub total-append : (f : A → ℤ) (xs ys : List A) → total f (xs ++ ys) ≡ total f xs +ℤ total f ys
  total-append f [] ys = omega int_laws
  total-append f (x ∷ xs) ys = rw (total-append f xs ys) (omega int_laws)

  pub All-append {κ} : (P : A → Type κ) (xs ys : List A) → All P xs → All P ys → All P (xs ++ ys)
  All-append P [] ys h k = k
  All-append P (x ∷ xs) ys h k = (h.0, All-append P xs ys h.1 k)

module _ {ℓ} {A : Type ℓ} where
  pub All-imp {κ μ} :
      {P : A → Type κ} {Q : A → Type μ}
      → ((x : A) → P x → Q x)
      → (xs : List A) → All P xs
      → All Q xs
  All-imp f [] h = tt
  All-imp f (x ∷ xs) h = (f x h.0, All-imp f xs h.1)

  pub All-zip {κ μ} :
      (P : A → Type κ) (Q : A → Type μ) (xs : List A)
      → All P xs
      → All Q xs
      → All (λ x. P x × Q x) xs
  All-zip P Q [] h k = tt
  All-zip P Q (x ∷ xs) h k = ((h.0, k.0), All-zip P Q xs h.1 k.1)

  pub All-of_forall {κ} : {P : A → Type κ} → ((x : A) → P x) → (xs : List A) → All P xs
  All-of_forall f [] = tt
  All-of_forall f (x ∷ xs) = (f x, All-of_forall f xs)

  pub All-map {μ κ} :
      {B : Type μ} (P : B → Type κ) (f : A → B) (xs : List A)
      → All (λ x. P (f x)) xs
      → All P (map f xs)
  All-map P f [] h = tt
  All-map P f (x ∷ xs) h = (h.0, All-map P f xs h.1)

  pub where_rows-All {κ} :
      (P : A → Type κ) (q : A → Bool) (xs : List A) → All P xs → All P (where_rows q xs)
  where_rows-All P q [] h = tt
  where_rows-All P q (x ∷ xs) h = elim (Bool-cases (q x)) [
    | inl kept ↦ rw kept (h.0, where_rows-All P q xs h.1)
    | inr dropped ↦ rw dropped (where_rows-All P q xs h.1)
  ]

  pub any_row-append :
      (p : A → Bool) (xs ys : List A) → any_row p (xs ++ ys) ≡ (any_row p xs || any_row p ys)
  any_row-append p [] ys = refl
  any_row-append p (x ∷ xs) ys = ground (arith, any_row-append p xs ys)

  -- what a filter keeps is still found, by a test that it passes itself
  pub any_row-where_rows :
      (p : A → A → Bool) (q : A → Bool) (xs : List A)
      → ((x : A) → p x x ≡ true)
      → All (λ x. q x ≡ true → any_row (p x) (where_rows q xs) ≡ true) xs
  any_row-where_rows p q [] pr = tt
  any_row-where_rows p q (x ∷ xs) pr =
      (λ hq. rw (hq, pr), All-imp (λ y h hq. weaken y (h hq)) xs (any_row-where_rows p q xs pr))
    where
      weaken :
          (y : A)
          → any_row (p y) (where_rows q xs) ≡ true
          → any_row (p y) (where_rows q (x ∷ xs)) ≡ true
      weaken y h = ground arith

  pub total-none : (f : A → ℤ) (xs : List A) → All (λ x. f x ≡ pos 0) xs → total f xs ≡ pos 0
  total-none f [] h = refl
  total-none f (x ∷ xs) h = rw (h.0, total-none f xs h.1) (omega int_laws)

  abbrev pub take : ℕ → List A → List A
  take zero xs = []
  take (suc n) [] = []
  take (suc n) (x ∷ xs) = x ∷ take n xs

  -- the last item first
  abbrev pub reverse : List A → List A
  reverse [] = []
  reverse (x ∷ xs) = reverse xs ++ x ∷ []

module _ {ℓ} {A : Type ℓ} where
  pub find_row-true : (p : A → Bool) (xs : List A) {x : A} → find_row p xs ≡ some x → p x ≡ true
  find_row-true p [] h = absurd (none-ne-some h)
    where
      none-ne-some : {x : A} → none ≡ some x → ⊥
      none-ne-some h = cc
  find_row-true p (y ∷ ys) {x} h = elim (Bool-cases (p y)) [
    | inl here ↦ subst (λ z. p z ≡ true) (some_inj (rw here at h)) here
    | inr later ↦ find_row-true p ys (rw later at h)
  ]

  pub find_row-any_row :
      (p q : A → Bool) (xs : List A) {x : A}
      → find_row p xs ≡ some x
      → q x ≡ true
      → any_row q xs ≡ true
  find_row-any_row p q [] h k = absurd (none-ne-some h)
    where
      none-ne-some : {x : A} → none ≡ some x → ⊥
      none-ne-some h = cc
  find_row-any_row p q (y ∷ ys) {x} h k = elim (Bool-cases (p y)) [
    | inl here ↦ rw (subst (λ z. q z ≡ true) (sym (some_inj (rw here at h))) k)
    | inr later ↦ or_right (q y) (find_row-any_row p q ys (rw later at h) k)
  ]
    where
      or_right : (b : Bool) {c : Bool} → c ≡ true → (b || c) ≡ true
      or_right b h = ground arith

  -- a row that a filter keeps is a row of the table
  pub any_row-of_where_rows :
      (p q : A → Bool) (xs : List A) → any_row p (where_rows q xs) ≡ true → any_row p xs ≡ true
  any_row-of_where_rows p q [] h = h
  any_row-of_where_rows p q (x ∷ xs) h = ground (arith, any_row-of_where_rows p q xs)

  pub any_row-map :
      (p : A → Bool) (f : A → A) (xs : List A)
      → ((x : A) → p (f x) ≡ p x)
      → any_row p (map f xs) ≡ any_row p xs
  any_row-map p f [] h = refl
  any_row-map p f (x ∷ xs) h = rw (h x, any_row-map p f xs h)

  pub find_row-any_row-true :
      (p : A → Bool) (xs : List A) {x : A} → find_row p xs ≡ some x → any_row p xs ≡ true
  find_row-any_row-true p xs h = find_row-any_row p p xs h (find_row-true p xs h)

  -- the row that an INSERT has appended is found, if no row passed the test before
  pub find_row-append_new :
      (p : A → Bool) (xs : List A) (x : A)
      → any_row p xs ≡ false
      → p x ≡ true
      → find_row p (xs ++ x ∷ []) ≡ some x
  find_row-append_new p [] x h k = rw k
  find_row-append_new p (y ∷ ys) x h k = elim (Bool-cases (p y)) [
    | inl here ↦ absurd (false≢true (sym (rw here at h)))
    | inr later ↦ rw later (find_row-append_new p ys x (rw later at h) k)
  ]

  -- an UPDATE that keeps the test finds the updated row
  pub find_row-map :
      (p : A → Bool) (f : A → A) (xs : List A) {x : A}
      → ((x : A) → p (f x) ≡ p x)
      → find_row p xs ≡ some x
      → find_row p (map f xs) ≡ some (f x)
  find_row-map p f [] h k = cc
  find_row-map p f (y ∷ ys) h k = elim (Bool-cases (p y)) [
    | inl here ↦ rw (h y, here) (cc (some_inj (rw here at k)))
    | inr later ↦ rw (h y, later) (find_row-map p f ys h (rw later at k))
  ]
