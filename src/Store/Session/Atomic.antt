-- ===== src/Store/Session/Atomic.antt =====
-- internal/store/store.go: runInTx from its first BEGIN to its answer.
use bytedance_double_entry_l.Prelude.{
  ap, ◌∙◌, ℕ, zero, suc, ◌≡◌, refl, sym, subst, Bool-cases, inl, inr, Option, none, some,
}
use bytedance_double_entry_l.Errors.{
  err-ne-ok, Error, Fault, Result, ok, err, serialization_failure, deadlock_detected, lost,
  unacknowledged, commit_failed,
}
use bytedance_double_entry_l.Store.Schema.{
  Db, SameRows, SameRows-refl, SameRows-trans, rollback-SameRows,
}
use bytedance_double_entry_l.Store.Session.{
  Session, Tx, next_fault, Outcome, done, retry, retry_or_return, pg_fault, is_retryable, give_up,
  commit_answer, end_attempt, begin_answer, commit, attempt, attempts, next_round, run_in_tx,
  max_retries,
}
use bytedance_double_entry_l.Store.Session.Inversion.{db-next_fault, fst_eq, snd_eq}

module _ {ℓ} {A : Type ℓ} (fn : Tx A) where
  -- How a transaction that began at `s` has ended: nothing is changed; or one run of the body, on
  -- the rows of `s`, has succeeded and is committed, and the caller got its result or, when the
  -- acknowledgement was lost, an error.
  pub data Ran (s : Session) : Result A → Session → Type ℓ where
    unchanged : {e : Error} {s' : Session} → SameRows s.db s'.db → Ran s (err e) s'
    committed :
        {a : A} {s' : Session} (s₁ s₂ : Session)
        → SameRows s.db s₁.db
        → fn s₁ ≡ (ok a, s₂)
        → s'.db ≡ s₂.db
        → Ran s (ok a) s'
    unanswered :
        {a : A} {s' : Session} (s₁ s₂ : Session)
        → SameRows s.db s₁.db
        → fn s₁ ≡ (ok a, s₂)
        → s'.db ≡ s₂.db
        → Ran s (err (commit_failed unacknowledged)) s'

  data RanOnce (s : Session) : Outcome A → Session → Type ℓ where
    finished : {r : Result A} {s' : Session} → Ran s r s' → RanOnce s (done r) s'
    again : {x : Fault} {s' : Session} → SameRows s.db s'.db → RanOnce s (retry x) s'

  rolled_back :
      (s s' : Session) (e : Error) (o : Option Fault)
      → SameRows s.db s'.db
      → RanOnce s (retry_or_return e o) s'
  unfolding retry_or_return
  rolled_back s s' e none h = finished (unchanged h)
  rolled_back s s' e (some x) h = elim (Bool-cases (is_retryable x)) [
    | inl again_test ↦ rw again_test (again h)
    | inr final ↦ rw final (finished (unchanged h))
  ]

  undo :
      (s s₁ s₂ : Session) (e : Error) (o : Option Fault)
      → SameRows s.db s₁.db
      → let (r, s') = give_up {A = A} s₁.db e o s₂ in RanOnce s r s'
  undo s s₁ s₂ e o same = rolled_back s _ e o (SameRows-trans same (rollback-SameRows s₁.db s₂.db))

  module _ (s s₁ s₂ : Session) (a : A) (same : SameRows s.db s₁.db) (run : fn s₁ ≡ (ok a, s₂)) where
    answered :
        (x : Option Fault) (s₃ : Session)
        → s₃.db ≡ s₂.db
        → let (o, s') = commit_answer s₁.db a x s₃ in RanOnce s o s'
    answered none s₃ h = finished (committed s₁ s₂ same run h)
    answered (some unacknowledged) s₃ h = finished (unanswered s₁ s₂ same run h)
    answered (some serialization_failure) s₃ h = undo s s₁ s₃ _ _ same
    answered (some deadlock_detected) s₃ h = undo s s₁ s₃ _ _ same
    answered (some lost) s₃ h = undo s s₁ s₃ _ _ same

    commit-RanOnce : let (o, s') = commit s₁.db a s₂ in RanOnce s o s'
    unfolding commit
    commit-RanOnce = answered (next_fault s₂).0 (next_fault s₂).1 (db-next_fault s₂)

  ended :
      (s s₁ : Session) (p : Result A × Session)
      → SameRows s.db s₁.db
      → fn s₁ ≡ p
      → let (o, s') = end_attempt s₁.db p.0 p.1 in RanOnce s o s'
  ended s s₁ (ok a, s₂) same run = commit-RanOnce s s₁ s₂ a same run
  ended s s₁ (err e, s₂) same run = undo s s₁ s₂ e (pg_fault e) same

  begun :
      (s : Session) (x : Option Fault) (s₁ : Session)
      → SameRows s.db s₁.db
      → let (o, s') = begin_answer fn x s₁ in RanOnce s o s'
  begun s none s₁ same = ended s s₁ (fn s₁) same refl
  begun s (some x) s₁ same = finished (unchanged same)

  attempt-RanOnce : (s : Session) → let (o, s') = attempt fn s in RanOnce s o s'
  unfolding attempt
  attempt-RanOnce s =
      begun s (next_fault s).0 (next_fault s).1
        (subst (SameRows s.db) (sym (db-next_fault s)) (SameRows-refl s.db))

  later :
      {s s₁ : Session} {r : Result A} {s' : Session}
      → SameRows s.db s₁.db
      → Ran s₁ r s'
      → Ran s r s'
  later same (unchanged h) = unchanged (SameRows-trans same h)
  later same (committed t₁ t₂ h run e) = committed t₁ t₂ (SameRows-trans same h) run e
  later same (unanswered t₁ t₂ h run e) = unanswered t₁ t₂ (SameRows-trans same h) run e

  attempts-Ran :
      (n : ℕ) (last : Option Fault) (s : Session) → let (r, s') = attempts n last fn s in Ran s r s'
  unfolding attempts
  attempts-Ran zero last s = unchanged (SameRows-refl s.db)
  attempts-Ran (suc n) last s =
      next (λ x. attempts-Ran n (some x)) (attempt fn s).0 (attempt fn s).1 (attempt-RanOnce s)
    where
      next :
          ((x : Fault) (t : Session) → let (r, s') = attempts n (some x) fn t in Ran t r s')
          → (o : Outcome A) (s₁ : Session) → RanOnce s o s₁
          → let (r, s') = next_round (attempts n) fn o s₁ in Ran s r s'
      next rest (done r) s₁ (finished h) = h
      next rest (retry x) s₁ (again h) = later h (rest x s₁)

  -- Whatever fails on the way and however often it retries, runInTx changes nothing, or commits
  -- exactly one run of its body on the rows it began with; only when the acknowledgement of a
  -- COMMIT is lost may it do so and return an error.
  pub run_in_tx-Ran : (s : Session) → let (r, s') = run_in_tx fn s in Ran s r s'
  unfolding run_in_tx
  run_in_tx-Ran s = attempts-Ran max_retries none s

-- A call of runInTx that returns a result has committed one run of its body.
pub run_in_tx-ok {ℓ} :
    {A : Type ℓ} (fn : Tx A) (s : Session) {a : A} {s' : Session}
    → run_in_tx fn s ≡ (ok a, s')
    → (s₁ : Session) × (s₂ : Session) × SameRows s.db s₁.db × (fn s₁ ≡ (ok a, s₂)) × (s'.db ≡ s₂.db)
run_in_tx-ok {A} fn s {a} {s'} h = ended (run_in_tx-Ran fn s) h
  where
    ended :
        {r : Result A} {t : Session}
        → Ran fn s r t
        → ◌≡◌ {A = Result A × Session} (r, t) (ok a, s')
        → (s₁ : Session) × (s₂ : Session) × SameRows s.db s₁.db
          × (fn s₁ ≡ (ok a, s₂))
          × (s'.db ≡ s₂.db)
    ended (unchanged same) k = absurd (err-ne-ok (fst_eq k))
    ended (unanswered s₁ s₂ same run is) k = absurd (err-ne-ok (fst_eq k))
    ended (committed s₁ s₂ same run is) k =
        (s₁, s₂, same, run ∙ (λ i. (fst_eq k i, s₂)), sym (ap Session.db (snd_eq k)) ∙ is)

-- An invariant of the rows that every successful run of the body keeps, runInTx keeps.
pub run_in_tx-keeps {ℓ κ} :
    {A : Type ℓ} (P : Db → Type κ) (fn : Tx A) (s : Session)
    → ((a b : Db) → SameRows a b → P a → P b)
    → ((s₁ s₂ : Session) (a : A) → fn s₁ ≡ (ok a, s₂) → P s₁.db → P s₂.db)
    → P s.db
    → P (run_in_tx fn s).1.db
run_in_tx-keeps {A} P fn s same keeps h = kept (run_in_tx-Ran fn s)
  where
    kept : {r : Result A} {s' : Session} → Ran fn s r s' → P s'.db
    kept (unchanged e) = same s.db _ e h
    kept (committed s₁ s₂ e run is) = subst P (sym is) (keeps s₁ s₂ _ run (same s.db s₁.db e h))
    kept (unanswered s₁ s₂ e run is) = subst P (sym is) (keeps s₁ s₂ _ run (same s.db s₁.db e h))
