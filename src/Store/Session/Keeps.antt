-- ===== src/Store/Session/Keeps.antt =====
-- Invariants of the rows along statements, whether they succeed or fail.
use bytedance_double_entry_l.Prelude.{◌≡◌, refl, sym, subst, Option, none, some}
use bytedance_double_entry_l.Errors.{
  Fault, Result, ok, err, serialization_failure, deadlock_detected, lost, unacknowledged,
}
use bytedance_double_entry_l.Store.Schema.{Db}
use bytedance_double_entry_l.Store.Session.{
  Session, Tx, next_fault, query, apply_query, auto_exec, apply_auto, continue, ◌>>=◌, ◌>>◌,
}
use bytedance_double_entry_l.Store.Session.Inversion.{db-next_fault}

pub db-query {ℓ} : {A : Type ℓ} (f : Db → Result A) (s : Session) → (query f s).1.db ≡ s.db
unfolding query
db-query {A} f s = split (next_fault s) (db-next_fault s)
  where
    split :
        (p : Option Fault × Session) → p.1.db ≡ s.db → (apply_query {A = A} f p.0 p.1).1.db ≡ s.db
    split (none, s₁) e = e
    split (some x, s₁) e = e

module _ {κ} (P : Db → Type κ) where
  pub auto_exec-keeps {ℓ} :
      {A : Type ℓ} (f : Db → Result A × Db) (s : Session)
      → ((db : Db) → P db → P (f db).1)
      → P s.db
      → P (auto_exec f s).1.db
  unfolding auto_exec
  auto_exec-keeps f s keeps h =
      split (next_fault s).0 (next_fault s).1 (subst P (sym (db-next_fault s)) h)
    where
      split : (x : Option Fault) (s₁ : Session) → P s₁.db → P (apply_auto f x s₁).1.db
      split none s₁ k = keeps s₁.db k
      split (some unacknowledged) s₁ k = keeps s₁.db k
      split (some serialization_failure) s₁ k = k
      split (some deadlock_detected) s₁ k = k
      split (some lost) s₁ k = k

  pub >>=-keeps {ℓ μ} :
      {A : Type ℓ} {B : Type μ} (m : Tx A) (f : A → Tx B) (s : Session)
      → P (m s).1.db
      → ((a : A) (t : Session) → m s ≡ (ok a, t) → P t.db → P (f a t).1.db)
      → P ((m >>= f) s).1.db
  unfolding ◌>>=◌
  >>=-keeps {A} m f s h keeps = split (m s) h (λ a t e k. keeps a t e k)
    where
      split :
          (p : Result A × Session)
          → P p.1.db
          → ((a : A) (t : Session) → p ≡ (ok a, t) → P t.db → P (f a t).1.db)
          → P (continue f p.0 p.1).1.db
      split (ok a, t) k go = go a t refl k
      split (err e, t) k go = k

  pub >>-keeps {μ} :
      {B : Type μ} (m : Tx (Unit {0})) (n : Tx B) (s : Session)
      → P (m s).1.db
      → ((t : Session) → P t.db → P (n t).1.db)
      → P ((m >> n) s).1.db
  unfolding ◌>>◌
  >>-keeps m n s h keeps = >>=-keeps m (λ _. n) s h (λ a t e k. keeps t k)
