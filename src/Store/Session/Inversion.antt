-- ===== src/Store/Session/Inversion.antt =====
-- What a statement or a chain of statements did, if it succeeded.
use bytedance_double_entry_l.Prelude.{◌≡◌, refl, ap, sym, ◌∙◌, Option, none, some, List, [], ◌∷◌}
use bytedance_double_entry_l.Errors.{Fault, Result, ok, err, err-ne-ok}
use bytedance_double_entry_l.Store.Schema.{Db}
use bytedance_double_entry_l.Store.Session.{
  Session, Tx, next_fault, take_fault, apply_query, apply_exec, query, exec, continue, lift, ◌>>=◌,
}

pub db-next_fault : (s : Session) → (next_fault s).1.db ≡ s.db
unfolding next_fault
db-next_fault s = take s.faults
  where
    take : (l : List (Option Fault)) → (take_fault s.db l).1.db ≡ s.db
    take [] = refl
    take (x ∷ l) = refl

module _ {ℓ} {A : Type ℓ} where
  abbrev pub fst_eq :
      {r r' : Result A} {s s' : Session} → ◌≡◌ {A = Result A × Session} (r, s) (r', s') → r ≡ r'
  fst_eq h = ap (λ (p : Result A × Session). p.0) h

  abbrev pub snd_eq :
      {r r' : Result A} {s s' : Session} → ◌≡◌ {A = Result A × Session} (r, s) (r', s') → s ≡ s'
  snd_eq h = ap (λ (p : Result A × Session). p.1) h

  -- A SELECT that succeeded read the rows and changed none.
  pub query-ok :
      (f : Db → Result A) (s : Session) {a : A} {s' : Session}
      → query f s ≡ (ok a, s')
      → (f s.db ≡ ok a) × (s'.db ≡ s.db)
  unfolding query
  query-ok f s {a} {s'} h = split (next_fault s) (db-next_fault s) h
    where
      split :
          (p : Option Fault × Session)
          → p.1.db ≡ s.db
          → apply_query f p.0 p.1 ≡ (ok a, s')
          → (f s.db ≡ ok a) × (s'.db ≡ s.db)
      split (none, s₁) e k = (ap f (sym e) ∙ fst_eq k, ap Session.db (sym (snd_eq k)) ∙ e)
      split (some x, s₁) e k = absurd (err-ne-ok (fst_eq k))

  -- An INSERT or UPDATE that succeeded did what it says.
  pub exec-ok :
      (f : Db → Result A × Db) (s : Session) {a : A} {s' : Session}
      → exec f s ≡ (ok a, s')
      → f s.db ≡ (ok a, s'.db)
  unfolding exec
  exec-ok f s {a} {s'} h = split (next_fault s) (db-next_fault s) h
    where
      split :
          (p : Option Fault × Session)
          → p.1.db ≡ s.db
          → apply_exec f p.0 p.1 ≡ (ok a, s')
          → f s.db ≡ (ok a, s'.db)
      split (none, s₁) e k = ap f (sym e) ∙ (λ i. (fst_eq k i, (snd_eq k i).db))
      split (some x, s₁) e k = absurd (err-ne-ok (fst_eq k))

module _ {ℓ κ} {A : Type ℓ} {B : Type κ} where
  pub >>=-ok :
      (m : Tx A) (f : A → Tx B) (s : Session) {b : B} {s' : Session}
      → (m >>= f) s ≡ (ok b, s')
      → (a : A) × (s₁ : Session) × (m s ≡ (ok a, s₁)) × (f a s₁ ≡ (ok b, s'))
  unfolding ◌>>=◌
  >>=-ok m f s {b} {s'} h = split (m s) h
    where
      split :
          (p : Result A × Session)
          → continue f p.0 p.1 ≡ (ok b, s')
          → (a : A) × (s₁ : Session) × (p ≡ (ok a, s₁)) × (f a s₁ ≡ (ok b, s'))
      split (ok a, s₁) k = (a, s₁, refl, k)
      split (err e, s₁) k = absurd (err-ne-ok (fst_eq k))

  pub lift-ok :
      (r : Result A) (f : A → Tx B) (s : Session) {b : B} {s' : Session}
      → (lift r >>= f) s ≡ (ok b, s')
      → (a : A) × (r ≡ ok a) × (f a s ≡ (ok b, s'))
  unfolding ◌>>=◌
  lift-ok (ok a) f s h = (a, refl, h)
  lift-ok (err e) f s h = absurd (err-ne-ok (fst_eq h))

  pub query_then-ok :
      (q : Db → Result A) (f : A → Tx B) (s : Session) {b : B} {s' : Session}
      → (query q >>= f) s ≡ (ok b, s')
      → (a : A) × (s₁ : Session) × (q s.db ≡ ok a) × (s₁.db ≡ s.db) × (f a s₁ ≡ (ok b, s'))
  query_then-ok q f s h =
      let (a, s₁, first, rest) = >>=-ok (query q) f s h in
      let (value, same) = query-ok q s first in (a, s₁, value, same, rest)
