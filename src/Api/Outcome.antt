-- ===== src/Api/Outcome.antt =====
-- What an operation of the service leaves behind when it fails, reads or posts.
use bytedance_double_entry_l.Prelude.{
  ◌≡◌, refl, sym, ap, subst, ◌∙◌, Bool, true, false, ◌⊎◌, inl, inr, Option, none, some, [], ◌∷◌,
  ◌++◌,
}
use bytedance_double_entry_l.Errors.{
  Error, Fault, Result, ok, err, err-ne-ok, serialization_failure, deadlock_detected, lost,
  unacknowledged,
}
use bytedance_double_entry_l.Store.Schema.{
  Db, TxnRow, SameRows, SameRows-refl, SameRows-trans, same_db,
}
use bytedance_double_entry_l.Store.Session.{
  Session, Tx, query, auto_exec, apply_auto, next_fault, pure, fail, lift, continue, ◌>>=◌,
  run_in_tx,
}
use bytedance_double_entry_l.Store.Session.Inversion.{fst_eq, snd_eq, db-next_fault}
use bytedance_double_entry_l.Store.Session.Keeps.{db-query}
use bytedance_double_entry_l.Store.Session.Atomic.{
  Ran, unchanged, committed, unanswered, run_in_tx-Ran,
}
use bytedance_double_entry_l.Api.Server.{fail_status}

err_inj {ℓ} : {A : Type ℓ} {e f : Error} → ◌≡◌ {A = Result A} (err e) (err f) → e ≡ f
err_inj h = cc

module _ {ℓ} {A : Type ℓ} where
  -- It changes no row.
  abbrev pub IsReading : Tx A → Type 0
  IsReading m = (s : Session) → SameRows s.db (m s).1.db

  -- An error that is not an internal one has changed no row.
  abbrev pub IsClean : Tx A → Type ℓ
  IsClean m =
      (s : Session) (e : Error) (s' : Session)
      → m s ≡ (err e, s')
      → SameRows s.db s'.db ⊎ (fail_status e ≡ 500)

  -- A result tells whether it is a replay, which changes no row, or adds one transaction.
  abbrev pub IsPosting : (A → Bool) → Tx A → Type ℓ
  IsPosting replayed m =
      (s : Session) (a : A) (s' : Session)
      → m s ≡ (ok a, s')
      → ((replayed a ≡ true) × SameRows s.db s'.db)
        ⊎ ((replayed a ≡ false) × (t : TxnRow) × (s'.db.transactions ≡ s.db.transactions ++ t ∷ []))

  pub IsReading-IsClean : (m : Tx A) → IsReading m → IsClean m
  IsReading-IsClean m reading s e s' h =
      inl (subst (λ (t : Session). SameRows s.db t.db) (snd_eq h) (reading s))

  pub query-IsReading : (f : Db → Result A) → IsReading (query f)
  query-IsReading f s = same_db (db-query f s)

  pub lift-IsReading : (r : Result A) → IsReading (lift r)
  lift-IsReading r s = SameRows-refl s.db

  pub fail-IsPosting : (replayed : A → Bool) (e : Error) → IsPosting replayed (fail e)
  fail-IsPosting replayed e s a s' h = absurd (err-ne-ok (fst_eq h))

  pub run_in_tx-IsClean : (fn : Tx A) → IsClean (run_in_tx fn)
  unfolding fail_status
  run_in_tx-IsClean fn s e s' h = ended (run_in_tx-Ran fn s) h
    where
      ended :
          {r : Result A} {t : Session}
          → Ran fn s r t
          → ◌≡◌ {A = Result A × Session} (r, t) (err e, s')
          → SameRows s.db s'.db ⊎ (fail_status e ≡ 500)
      ended (unchanged same) k = inl (subst (λ (t : Session). SameRows s.db t.db) (snd_eq k) same)
      ended (committed s₁ s₂ same run is) k = absurd (err-ne-ok (sym (fst_eq k)))
      ended (unanswered s₁ s₂ same run is) k = inr (ap fail_status (sym (err_inj (fst_eq k))))

  pub auto_exec-IsClean :
      (f : Db → Result A × Db)
      → ((db : Db) (e : Error) → (f db).0 ≡ err e → SameRows db (f db).1)
      → IsClean (auto_exec f)
  unfolding auto_exec fail_status
  auto_exec-IsClean f refused s e s' h = ended (next_fault s).0 (next_fault s).1 (db-next_fault s) h
    where
      ended :
          (x : Option Fault) (t : Session)
          → t.db ≡ s.db
          → apply_auto f x t ≡ (err e, s')
          → SameRows s.db s'.db ⊎ (fail_status e ≡ 500)
      ended none t is k = inl (
          subst (λ (u : Session). SameRows s.db u.db) (snd_eq k)
            (SameRows-trans (same_db is) (refused t.db e (fst_eq k))))
      ended (some unacknowledged) t is k = inr (ap fail_status (sym (err_inj (fst_eq k))))
      ended (some serialization_failure) t is k = inr (ap fail_status (sym (err_inj (fst_eq k))))
      ended (some deadlock_detected) t is k = inr (ap fail_status (sym (err_inj (fst_eq k))))
      ended (some lost) t is k = inr (ap fail_status (sym (err_inj (fst_eq k))))

module _ {ℓ κ} {A : Type ℓ} {B : Type κ} (m : Tx A) (f : A → Tx B) where
  pub >>=-IsReading : IsReading m → ((a : A) → IsReading (f a)) → IsReading (m >>= f)
  unfolding ◌>>=◌
  >>=-IsReading first rest s = go (m s) (first s)
    where
      go : (p : Result A × Session) → SameRows s.db p.1.db → SameRows s.db (continue f p.0 p.1).1.db
      go (ok a, t) same = SameRows-trans same (rest a t)
      go (err e, t) same = same

  -- reads first, and then an operation
  pub >>=-IsClean : IsReading m → ((a : A) → IsClean (f a)) → IsClean (m >>= f)
  unfolding ◌>>=◌
  >>=-IsClean first rest s e s' h = go (m s) (first s) h
    where
      go :
          (p : Result A × Session)
          → SameRows s.db p.1.db
          → continue f p.0 p.1 ≡ (err e, s')
          → SameRows s.db s'.db ⊎ (fail_status e ≡ 500)
      go (ok a, t) same k = elim (rest a t e s' k) [
        | inl after ↦ inl (SameRows-trans same after)
        | inr internal ↦ inr internal
      ]
      go (err x, t) same k = inl (subst (λ (u : Session). SameRows s.db u.db) (snd_eq k) same)

  -- an operation first, and then a computation that cannot fail
  pub >>=_pure-IsClean : IsClean m → (g : A → B) → ((a : A) → f a ≡ pure (g a)) → IsClean (m >>= f)
  unfolding ◌>>=◌
  >>=_pure-IsClean first g total s e s' h = go (m s) refl h
    where
      go :
          (p : Result A × Session)
          → m s ≡ p
          → continue f p.0 p.1 ≡ (err e, s')
          → SameRows s.db s'.db ⊎ (fail_status e ≡ 500)
      go (ok a, t) run k =
          absurd (err-ne-ok (sym (fst_eq (sym (ap (λ (n : Tx B). n t) (total a)) ∙ k))))
      go (err x, t) run k = first s e s' (run ∙ (λ i. (err (err_inj (fst_eq k) i), snd_eq k i)))

  pub >>=-IsPosting :
      (replayed : B → Bool)
      → IsReading m
      → ((a : A) → IsPosting replayed (f a))
      → IsPosting replayed (m >>= f)
  unfolding ◌>>=◌
  >>=-IsPosting replayed first rest s b s' h = go (m s) (first s) h
    where
      go :
          (p : Result A × Session)
          → SameRows s.db p.1.db
          → continue f p.0 p.1 ≡ (ok b, s')
          → ((replayed b ≡ true) × SameRows s.db s'.db)
            ⊎ ((replayed b ≡ false)
                × (t : TxnRow) × (s'.db.transactions ≡ s.db.transactions ++ t ∷ []))
      go (ok a, t) same k = elim (rest a t b s' k) [
        | inl (again, after) ↦ inl (again, SameRows-trans same after)
        | inr (new, row, added) ↦
            inr (new, row, added ∙ ap (λ ts. ts ++ row ∷ []) same.transactions)
      ]
      go (err x, t) same k = absurd (err-ne-ok (fst_eq k))
