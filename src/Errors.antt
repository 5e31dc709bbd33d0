-- ===== src/Errors.antt =====
-- The errors of the program. Each sentinel (`var Err... = errors.New(...)`) is a constructor, and so
-- is each error built in place; a wrapped error (`fmt.Errorf("%w: ...")`) is the sentinel that
-- `errors.Is` finds in it. Message texts are not modelled.
use mathlib.Core.Option.{Option}
use mathlib.Core.Path.{◌≡◌, refl}

-- What a Postgres statement may come back with besides rows. The first two are the SQLSTATE codes
-- 40001 and 40P01. `lost` is any other failure, the connection's included, of a statement that had no
-- effect; `unacknowledged` is a failure after which a COMMIT has taken effect all the same.
pub data Fault : Type 0 where
  serialization_failure deadlock_detected lost unacknowledged : Fault

pub data Error : Type 0 where
  unknown_currency bad_amount bad_rate : Error
  unbalanced too_few_legs zero_leg : Error
  account_not_found insufficient_funds currency_mismatch : Error
  idempotency_conflict key_required unexpected_state : Error
  not_a_payment name_required unique_violation foreign_key_violation no_rows out_of_range : Error
  non_positive refund_exceeds_captured same_account same_currency converted_non_positive : Error
  bad_request : Error
  statement_failed begin_failed commit_failed : Fault → Error
  exhausted_retries : Option Fault → Error

-- Go's `(T, error)`: a value, or an error.
pub data Result {ℓ} (A : Type ℓ) : Type ℓ where
  ok : A → Result A
  err : Error → Result A

module _ {ℓ κ} {A : Type ℓ} {B : Type κ} where
  abbrev pub map_ok : (A → B) → Result A → Result B
  map_ok f (err e) = err e
  map_ok f (ok value) = ok (f value)

  -- `if err != nil { return ..., err }`, and what follows it
  infixl 5 ◌>>=◌
  abbrev pub ◌>>=◌ : Result A → (A → Result B) → Result B
  err e >>= rest = err e
  ok value >>= rest = rest value

infixl 5 ◌>>◌
abbrev pub ◌>>◌ {ℓ} : {B : Type ℓ} → Result (Unit {0}) → Result B → Result B
checked >> rest = checked >>= λ _. rest

module _ {ℓ} {A : Type ℓ} where
  pub ok_inj : {a b : A} → ok a ≡ ok b → a ≡ b
  ok_inj h = cc

  pub err-ne-ok : {e : Error} {a : A} → err e ≡ ok a → ⊥
  err-ne-ok h = cc

module _ {ℓ κ} {A : Type ℓ} {B : Type κ} where
  -- A chain that succeeds has a first step that succeeds.
  pub >>=-eq-ok :
      (first : Result A) (rest : A → Result B) {b : B}
      → (first >>= rest) ≡ ok b
      → (a : A) × (first ≡ ok a) × (rest a ≡ ok b)
  >>=-eq-ok (err e) rest h = absurd (err-ne-ok h)
  >>=-eq-ok (ok value) rest h = (value, refl, h)
