-- ===== src/Store/Session.antt =====
-- internal/store/store.go: statements inside a transaction, and runInTx with its retries.
-- pgx and Postgres are outside the repository. What they may do to a statement, to BEGIN and to
-- COMMIT is the list `faults` of the session, which every statement reads one entry of: `none` lets
-- it through, and behind the end of the list nothing fails. Transactions are taken one after the
-- other.
pub mod Inversion
pub mod Atomic
pub mod Keeps
pub mod Retries
pub mod Returns
use bytedance_double_entry_l.Prelude.{
  ℕ, zero, suc, Bool, true, false, Option, none, some, List, [], ◌∷◌, if◌then◌else◌,
}
use bytedance_double_entry_l.Errors.{
  Error, Fault, Result, ok, err, serialization_failure, deadlock_detected, lost, unacknowledged,
  statement_failed, begin_failed, commit_failed, exhausted_retries,
}
use bytedance_double_entry_l.Store.Schema.{Db, rollback}

pub record Session : Type 0 where
  pub db : Db
  pub faults : List (Option Fault)

abbrev pub Tx {ℓ} : Type ℓ → Type ℓ
Tx A = Session → Result A × Session

abbrev pub take_fault : Db → List (Option Fault) → Option Fault × Session
take_fault db [] = (none, record { db = db; faults = [] })
take_fault db (x ∷ rest) = (x, record { db = db; faults = rest })

-- what the server answers to the next statement
unfoldable pub next_fault : Session → Option Fault × Session
next_fault s = take_fault s.db s.faults

module _ {ℓ} {A : Type ℓ} where
  abbrev pub pure : A → Tx A
  pure a s = (ok a, s)

  abbrev pub fail : Error → Tx A
  fail e s = (err e, s)

  -- a computation of Go inside the transaction
  abbrev pub lift : Result A → Tx A
  lift r s = (r, s)

  abbrev apply_query : (Db → Result A) → Option Fault → Tx A
  apply_query f none s = (f s.db, s)
  apply_query f (some x) s = (err (statement_failed x), s)

  -- a SELECT
  unfoldable pub query : (Db → Result A) → Tx A
  query f s = let (x, s') = next_fault s in apply_query f x s'

  abbrev apply_exec : (Db → Result A × Db) → Option Fault → Tx A
  apply_exec f none s = let (r, db) = f s.db in (r, record s { db = db })
  apply_exec f (some x) s = (err (statement_failed x), s)

  -- an INSERT or an UPDATE
  unfoldable pub exec : (Db → Result A × Db) → Tx A
  exec f s = let (x, s') = next_fault s in apply_exec f x s'

  abbrev pub apply_auto : (Db → Result A × Db) → Option Fault → Tx A
  apply_auto f none s = let (r, db) = f s.db in (r, record s { db = db })
  apply_auto f (some unacknowledged) s =
      (err (statement_failed unacknowledged), record s { db = (f s.db).1 })
  apply_auto f (some x) s = (err (statement_failed x), s)

  -- an INSERT or an UPDATE on the pool, which commits by itself
  unfoldable pub auto_exec : (Db → Result A × Db) → Tx A
  auto_exec f s = let (x, s') = next_fault s in apply_auto f x s'

module _ {ℓ κ} {A : Type ℓ} {B : Type κ} where
  abbrev pub continue : (A → Tx B) → Result A → Tx B
  continue f (ok a) s = f a s
  continue f (err e) s = (err e, s)

  infixl 10 ◌>>=◌
  unfoldable pub ◌>>=◌ : Tx A → (A → Tx B) → Tx B
  ◌>>=◌ m f s = let (r, s') = m s in continue f r s'

infixl 10 ◌>>◌
unfoldable pub ◌>>◌ {ℓ} : {B : Type ℓ} → Tx (Unit {0}) → Tx B → Tx B
unfolding ◌>>=◌
m >> k = m >>= λ _. k

-- `isRetryable`: the codes 40001 and 40P01
unfoldable pub is_retryable : Fault → Bool
is_retryable serialization_failure = true
is_retryable deadlock_detected = true
is_retryable _ = false

-- the PgError that `errors.As` finds
unfoldable pub pg_fault : Error → Option Fault
pg_fault (statement_failed x) = some x
pg_fault (begin_failed x) = some x
pg_fault (commit_failed x) = some x
pg_fault (exhausted_retries x) = x
pg_fault _ = none

abbrev pub max_retries : ℕ
max_retries = 25

-- What an attempt came to.
pub data Outcome {ℓ} (A : Type ℓ) : Type ℓ where
  done : Result A → Outcome A
  retry : Fault → Outcome A

unfoldable pub retry_or_return {ℓ} : {A : Type ℓ} → Error → Option Fault → Outcome A
unfolding is_retryable
retry_or_return e none = done (err e)
retry_or_return e (some x) = if is_retryable x then retry x else done (err e)

module _ {ℓ} {A : Type ℓ} where
  -- ROLLBACK, and the loop's decision on the error
  abbrev pub give_up : Db → Error → Option Fault → Session → Outcome A × Session
  give_up before e x s = (retry_or_return e x, record s { db = rollback before s.db })

  abbrev pub commit_answer : Db → A → Option Fault → Session → Outcome A × Session
  commit_answer before a none s = (done (ok a), s)
  commit_answer before a (some unacknowledged) s = (done (err (commit_failed unacknowledged)), s)
  commit_answer before a (some x) s = give_up before (commit_failed x) (some x) s

  -- COMMIT, from the rows before the transaction
  unfoldable pub commit : Db → A → Session → Outcome A × Session
  commit before a s = let (x, s') = next_fault s in commit_answer before a x s'

  abbrev pub end_attempt : Db → Result A → Session → Outcome A × Session
  end_attempt before (ok a) s = commit before a s
  end_attempt before (err e) s = give_up before e (pg_fault e) s

  abbrev pub begin_answer : Tx A → Option Fault → Session → Outcome A × Session
  begin_answer fn none s = let (r, s') = fn s in end_attempt s.db r s'
  begin_answer fn (some x) s = (done (err (begin_failed x)), s)

  -- one round of the loop: BEGIN, the body, and COMMIT or ROLLBACK
  unfoldable pub attempt : Tx A → Session → Outcome A × Session
  attempt fn s = let (x, s') = next_fault s in begin_answer fn x s'

  -- return, or `continue` with `lastErr`
  abbrev pub next_round : (Option Fault → Tx A → Tx A) → Tx A → Outcome A → Tx A
  next_round rest fn (done r) s = (r, s)
  next_round rest fn (retry x) s = rest (some x) fn s

  unfoldable pub attempts : ℕ → Option Fault → Tx A → Tx A
  attempts zero last fn s = (err (exhausted_retries last), s)
  attempts (suc n) last fn s = let (o, s') = attempt fn s in next_round (attempts n) fn o s'

  unfoldable pub run_in_tx : Tx A → Tx A
  run_in_tx fn = attempts max_retries none fn
