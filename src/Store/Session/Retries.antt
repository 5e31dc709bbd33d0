-- ===== src/Store/Session/Retries.antt =====
-- internal/store/store.go: when runInTx starts again, how often, and what it answers then.
use bytedance_double_entry_l.Prelude.{
  ℕ, suc, zero, ◌≡◌, ◌≢◌, ◌<◌, refl, sym, subst, ◌∙◌, Option, none, some, some_inj, arith, true,
  Bool-cases, inl, inr,
}
use bytedance_double_entry_l.Errors.{
  Error, Fault, Result, ok, err, serialization_failure, deadlock_detected, lost, unacknowledged,
  begin_failed, commit_failed, exhausted_retries,
}
use bytedance_double_entry_l.Store.Schema.{rollback}
use bytedance_double_entry_l.Store.Session.{
  Session, Tx, Outcome, done, retry, next_fault, pg_fault, is_retryable, retry_or_return,
  commit_answer, commit, end_attempt, begin_answer, attempt, attempts, next_round, run_in_tx,
}

-- The failures on which a transaction is to start again.
pub data IsTransient : Fault → Type 0 where
  serialization : IsTransient serialization_failure
  deadlock : IsTransient deadlock_detected

abbrev pub IsFinal : Error → Type 0
IsFinal e = (x : Fault) → pg_fault e ≡ some x → ¬ IsTransient x

pub IsTransient-retryable : (x : Fault) → is_retryable x ≡ true → IsTransient x
unfolding is_retryable
IsTransient-retryable serialization_failure h = serialization
IsTransient-retryable deadlock_detected h = deadlock
IsTransient-retryable lost h = absurd cc
IsTransient-retryable unacknowledged h = absurd cc

pub retryable-IsTransient : {x : Fault} → IsTransient x → is_retryable x ≡ true
unfolding is_retryable
retryable-IsTransient serialization = refl
retryable-IsTransient deadlock = refl

module _ {ℓ} {A : Type ℓ} (fn : Tx A) where
  -- An attempt that is rolled back with an error: the one of the body, or one of COMMIT.
  pub data Rejected (s : Session) : Error → Session → Type ℓ where
    in_body :
        {e : Error} {s₁ s₂ : Session}
        → next_fault s ≡ (none, s₁)
        → fn s₁ ≡ (err e, s₂)
        → Rejected s e (record s₂ { db = rollback s₁.db s₂.db })
    at_commit :
        {x : Fault} {a : A} {s₁ s₂ s₃ : Session}
        → next_fault s ≡ (none, s₁)
        → fn s₁ ≡ (ok a, s₂)
        → next_fault s₂ ≡ (some x, s₃)
        → x ≢ unacknowledged
        → Rejected s (commit_failed x) (record s₃ { db = rollback s₁.db s₃.db })

  -- An attempt that decides the call: the transaction does not begin, is committed, with or without
  -- an answer, or is rolled back with an error that is no serialization failure and no deadlock.
  pub data Finished (s : Session) : Result A → Session → Type ℓ where
    not_begun :
        {x : Fault} {s' : Session}
        → next_fault s ≡ (some x, s')
        → Finished s (err (begin_failed x)) s'
    committed :
        {a : A} {s₁ s₂ s' : Session}
        → next_fault s ≡ (none, s₁)
        → fn s₁ ≡ (ok a, s₂)
        → next_fault s₂ ≡ (none, s')
        → Finished s (ok a) s'
    unanswered :
        {a : A} {s₁ s₂ s' : Session}
        → next_fault s ≡ (none, s₁)
        → fn s₁ ≡ (ok a, s₂)
        → next_fault s₂ ≡ (some unacknowledged, s')
        → Finished s (err (commit_failed unacknowledged)) s'
    failed : {e : Error} {s' : Session} → Rejected s e s' → IsFinal e → Finished s (err e) s'

  -- So many attempts, one after the other, are each rolled back with a serialization failure or a
  -- deadlock; the faults are the one before them and the last of them.
  pub data Retried : ℕ → Option Fault → Option Fault → Session → Session → Type ℓ where
    at_first : {last : Option Fault} {s : Session} → Retried zero last last s s
    once_more :
        {n : ℕ} {e : Error} {x : Fault} {before last : Option Fault} {s s₁ s' : Session}
        → Rejected s e s₁
        → pg_fault e ≡ some x
        → IsTransient x
        → Retried n (some x) last s₁ s'
        → Retried (suc n) before last s s'

  data Attempted (s : Session) : Outcome A → Session → Type ℓ where
    finished : {r : Result A} {s' : Session} → Finished s r s' → Attempted s (done r) s'
    again :
        {e : Error} {x : Fault} {s' : Session}
        → Rejected s e s'
        → pg_fault e ≡ some x
        → IsTransient x
        → Attempted s (retry x) s'

  decided :
      (s : Session) (e : Error) (o : Option Fault) (s' : Session)
      → pg_fault e ≡ o
      → Rejected s e s'
      → Attempted s (retry_or_return e o) s'
  unfolding retry_or_return
  decided s e none s' is h = finished (failed h (λ x k. absurd cc))
  decided s e (some x) s' is h = elim (Bool-cases (is_retryable x)) [
    | inl again_test ↦ rw again_test (again h is (IsTransient-retryable x again_test))
    | inr final ↦ rw final (
        finished (
          failed h (λ y k t.
            let same : y ≡ x = some_inj (sym k ∙ is) in
            let again_test : is_retryable x ≡ true =
              subst (λ z. is_retryable z ≡ true) same (retryable-IsTransient t) in
            cc)))
  ]

  answered :
      (s s₁ s₂ : Session) (a : A) (x : Option Fault) (s₃ : Session)
      → next_fault s ≡ (none, s₁)
      → fn s₁ ≡ (ok a, s₂)
      → next_fault s₂ ≡ (x, s₃)
      → let (o, s') = commit_answer s₁.db a x s₃ in Attempted s o s'
  unfolding pg_fault
  answered s s₁ s₂ a none s₃ b run h = finished (committed b run h)
  answered s s₁ s₂ a (some unacknowledged) s₃ b run h = finished (unanswered b run h)
  answered s s₁ s₂ a (some serialization_failure) s₃ b run h =
      decided s _ _ _ refl (at_commit b run h (λ k. cc))
  answered s s₁ s₂ a (some deadlock_detected) s₃ b run h =
      decided s _ _ _ refl (at_commit b run h (λ k. cc))
  answered s s₁ s₂ a (some lost) s₃ b run h = decided s _ _ _ refl (at_commit b run h (λ k. cc))

  ended :
      (s s₁ : Session) (p : Result A × Session)
      → next_fault s ≡ (none, s₁)
      → fn s₁ ≡ p
      → let (o, s') = end_attempt s₁.db p.0 p.1 in Attempted s o s'
  unfolding commit
  ended s s₁ (ok a, s₂) b run = answered s s₁ s₂ a (next_fault s₂).0 (next_fault s₂).1 b run refl
  ended s s₁ (err e, s₂) b run = decided s e (pg_fault e) _ refl (in_body b run)

  begun :
      (s : Session) (x : Option Fault) (s₁ : Session)
      → next_fault s ≡ (x, s₁)
      → let (o, s') = begin_answer fn x s₁ in Attempted s o s'
  begun s none s₁ b = ended s s₁ (fn s₁) b refl
  begun s (some x) s₁ b = finished (not_begun b)

  attempt-Attempted : (s : Session) → let (o, s') = attempt fn s in Attempted s o s'
  unfolding attempt
  attempt-Attempted s = begun s (next_fault s).0 (next_fault s).1 refl

  -- How a call ends that makes at most so many attempts.
  pub data Ended (n : ℕ) (before : Option Fault) (s : Session) (r : Result A) (s' : Session)
      : Type ℓ where
    returned :
        (k : ℕ) {last : Option Fault} {s₁ : Session}
        → k < n
        → Retried k before last s s₁
        → Finished s₁ r s'
        → Ended n before s r s'
    exhausted :
        {last : Option Fault}
        → Retried n before last s s'
        → r ≡ err (exhausted_retries last)
        → Ended n before s r s'

  attempts-Ended :
      (n : ℕ) (before : Option Fault) (s : Session)
      → let (r, s') = attempts n before fn s in Ended n before s r s'
  unfolding attempts
  attempts-Ended zero before s = exhausted at_first refl
  attempts-Ended (suc n) before s =
      next (attempt fn s).0 (attempt fn s).1 (attempt-Attempted s) (λ x. attempts-Ended n (some x))
    where
      next :
          (o : Outcome A) (s₁ : Session)
          → Attempted s o s₁
          → ((x : Fault) (t : Session)
              → let (r, s') = attempts n (some x) fn t in Ended n (some x) t r s')
          → let (r, s') = next_round (attempts n) fn o s₁ in Ended (suc n) before s r s'
      next (done r) s₁ (finished h) rest = returned 0 (omega arith) at_first h
      next (retry x) s₁ (again h is transient) rest = further (rest x s₁)
        where
          further :
              {r : Result A} {s' : Session} → Ended n (some x) s₁ r s' → Ended (suc n) before s r s'
          further (returned k lt retried finishes) =
              returned (suc k) (omega arith) (once_more h is transient retried) finishes
          further (exhausted retried is_last) = exhausted (once_more h is transient retried) is_last

  -- Whatever the body does and whatever fails, runInTx ends in one of two ways. Either fewer than
  -- 25 attempts are rolled back with a serialization failure or a deadlock, and the next one
  -- decides the call and its result: it does not begin, it is committed, with or without an
  -- answer, or it is rolled back with any other error. Or 25 attempts are rolled back with a
  -- serialization failure or a deadlock, and the result is that the retries are exhausted.
  pub run_in_tx-Ended : (s : Session) → let (r, s') = run_in_tx fn s in Ended 25 none s r s'
  unfolding run_in_tx
  run_in_tx-Ended s = attempts-Ended 25 none s
