-- ===== src/Store/Idempotency/Retry.antt =====
-- Calls of PostEntryIdempotentGuarded through runInTx, and calls repeated with the same key.
use bytedance_double_entry_l.Prelude.{
  ℕ, zero, suc, ◌≡◌, refl, sym, ap, subst, ◌∙◌, String, Bool-cases, true, false, ◌⊎◌, inl, inr,
  Option, [], ◌∷◌, ◌++◌, str_eq,
}
use bytedance_double_entry_l.Errors.{
  Result, ok, err, ok_inj, err-ne-ok, key_required, commit_failed, unacknowledged,
}
use bytedance_double_entry_l.Ledger.Entry.{Entry}
use bytedance_double_entry_l.Store.Schema.{
  Db, Json, SameRows, SameRows-refl, SameRows-trans, same_db,
}
use bytedance_double_entry_l.Store.Session.{Session, run_in_tx}
use bytedance_double_entry_l.Store.Session.Atomic.{
  Ran, unchanged, committed, unanswered, run_in_tx-Ran,
}
use bytedance_double_entry_l.Store.Posting.{Guard, txn_row}
use bytedance_double_entry_l.Store.Idempotency.{
  IdemResult, idempotent_tx, post_entry_idempotent_guarded,
}
use bytedance_double_entry_l.Store.Idempotency.Keys.{IsCompleted}
use bytedance_double_entry_l.Store.Idempotency.Once.{
  Owned, idempotent_tx-ok, Owned-IsCompleted, replays, conflicts,
}

pub IsCompleted-SameRows :
    (key hash : String) (t : ℕ) (stored : Json) (a b : Db)
    → SameRows a b
    → IsCompleted key hash t stored a
    → IsCompleted key hash t stored b
IsCompleted-SameRows key hash t stored a b same h = rw (same.idempotency_keys) h

module _ (key hash : String) (e : Entry) (response : Json) (guard : Option Guard) where
  -- What one call may come to: the rows stay; or the entry is posted under the key, and the caller
  -- is told so or the answer is lost.
  pub data Called (s : Session) : Result IdemResult → Session → Type 0 where
    kept : {r : Result IdemResult} {s' : Session} → SameRows s.db s'.db → Called s r s'
    posted :
        {r : Result IdemResult} {s' : Session} (db₁ : Db) (x : IdemResult)
        → SameRows s.db db₁
        → Owned key hash e response guard db₁ x s'.db
        → (r ≡ ok x) ⊎ (r ≡ err (commit_failed unacknowledged))
        → Called s r s'

  call_named :
      (s : Session)
      → str_eq key "" ≡ false
      → post_entry_idempotent_guarded key hash e response guard s
        ≡ run_in_tx (idempotent_tx key hash e response guard) s
  unfolding post_entry_idempotent_guarded
  call_named s h = rw h refl

  call_unnamed :
      (s : Session)
      → str_eq key "" ≡ true
      → post_entry_idempotent_guarded key hash e response guard s ≡ (err key_required, s)
  unfolding post_entry_idempotent_guarded
  call_unnamed s h = rw h refl

  Ran-Called :
      (s : Session) {r : Result IdemResult} {s' : Session}
      → Ran (idempotent_tx key hash e response guard) s r s'
      → Called s r s'
  Ran-Called s (unchanged h) = kept h
  Ran-Called s {s'} (committed {a} s₁ s₂ same run is) =
      elim (idempotent_tx-ok key hash e response guard s₁ run) [
        | inl o ↦
            posted s₁.db a same (subst (Owned key hash e response guard s₁.db a) (sym is) o)
              (inl refl)
        | inr (found, eq) ↦ kept (SameRows-trans same (same_db (is ∙ eq)))
      ]
  Ran-Called s {s'} (unanswered {a} s₁ s₂ same run is) =
      elim (idempotent_tx-ok key hash e response guard s₁ run) [
        | inl o ↦
            posted s₁.db a same (subst (Owned key hash e response guard s₁.db a) (sym is) o)
              (inr refl)
        | inr (found, eq) ↦ kept (SameRows-trans same (same_db (is ∙ eq)))
      ]

  -- Whatever fails on the way, a call leaves the rows as they were, or posts the entry once under
  -- the key; in the second case it returns the posting, or the acknowledgement of COMMIT was lost.
  pub call-Called :
      (s : Session)
      → let (r, s') = post_entry_idempotent_guarded key hash e response guard s in Called s r s'
  call-Called s = elim (Bool-cases (str_eq key "")) [
    | inl unnamed ↦ rw (call_unnamed s unnamed) (kept (SameRows-refl s.db))
    | inr named ↦
        rw (call_named s named)
          (Ran-Called s (run_in_tx-Ran (idempotent_tx key hash e response guard) s))
  ]

  -- With the key completed for this request, a call changes no row, and when it returns a result
  -- that is the stored transaction with the stored response, marked as replayed.
  pub completed_call :
      (s : Session) (t : ℕ) (stored : Json)
      → IsCompleted key hash t stored s.db
      → let (r, s') = post_entry_idempotent_guarded key hash e response guard s in
        SameRows s.db s'.db
        × ((x : IdemResult)
            → r ≡ ok x
            → x ≡ record { txn_id = t; replayed = true; response = stored })
  completed_call s t stored h = elim (Bool-cases (str_eq key "")) [
    | inl unnamed ↦ rw (call_unnamed s unnamed) (SameRows-refl s.db, λ x k. absurd (err-ne-ok k))
    | inr named ↦
        rw (call_named s named) (ran (run_in_tx-Ran (idempotent_tx key hash e response guard) s))
  ]
    where
      carry : (s₁ : Session) → SameRows s.db s₁.db → IsCompleted key hash t stored s₁.db
      carry s₁ same = IsCompleted-SameRows key hash t stored s.db s₁.db same h

      ran :
          {r : Result IdemResult} {s' : Session}
          → Ran (idempotent_tx key hash e response guard) s r s'
          → SameRows s.db s'.db
            × ((x : IdemResult)
                → r ≡ ok x
                → x ≡ record { txn_id = t; replayed = true; response = stored })
      ran (unchanged same) = (same, λ x k. absurd (err-ne-ok k))
      ran (committed s₁ s₂ same run is) =
          let (result, eq) = replays key hash e response guard s₁ t stored (carry s₁ same) run in
          (SameRows-trans same (same_db (is ∙ eq)), λ x k. sym (ok_inj k) ∙ result)
      ran (unanswered s₁ s₂ same run is) =
          let (result, eq) = replays key hash e response guard s₁ t stored (carry s₁ same) run in
          (SameRows-trans same (same_db (is ∙ eq)), λ x k. absurd (err-ne-ok k))

  -- With the key completed for another request, a call returns an error and changes no row.
  pub conflicting_call :
      (s : Session) (other : String) (t : ℕ) (stored : Json)
      → str_eq other hash ≡ false
      → IsCompleted key other t stored s.db
      → let (r, s') = post_entry_idempotent_guarded key hash e response guard s in
        SameRows s.db s'.db × ((x : IdemResult) → r ≡ ok x → ⊥)
  conflicting_call s other t stored differs h = elim (Bool-cases (str_eq key "")) [
    | inl unnamed ↦ rw (call_unnamed s unnamed) (SameRows-refl s.db, λ x k. err-ne-ok k)
    | inr named ↦
        rw (call_named s named) (ran (run_in_tx-Ran (idempotent_tx key hash e response guard) s))
  ]
    where
      never :
          (s₁ s₂ : Session) (a : IdemResult)
          → SameRows s.db s₁.db
          → idempotent_tx key hash e response guard s₁ ≡ (ok a, s₂)
          → ⊥
      never s₁ s₂ a same run =
          conflicts key hash e response guard s₁ other t stored differs
            (IsCompleted-SameRows key other t stored s.db s₁.db same h) run

      ran :
          {r : Result IdemResult} {s' : Session}
          → Ran (idempotent_tx key hash e response guard) s r s'
          → SameRows s.db s'.db × ((x : IdemResult) → r ≡ ok x → ⊥)
      ran (unchanged same) = (same, λ x k. err-ne-ok k)
      ran (committed {a} s₁ s₂ same run is) = absurd (never s₁ s₂ a same run)
      ran (unanswered {a} s₁ s₂ same run is) = absurd (never s₁ s₂ a same run)

  -- the client calls again, whatever the answer was
  abbrev pub calls : ℕ → Session → Session
  calls zero s = s
  calls (suc n) s = calls n (post_entry_idempotent_guarded key hash e response guard s).1

  -- once completed, further calls leave the rows alone
  completed_calls :
      (n : ℕ) (s : Session) (t : ℕ) (stored : Json)
      → IsCompleted key hash t stored s.db
      → SameRows s.db (calls n s).db
  completed_calls zero s t stored h = SameRows-refl s.db
  completed_calls (suc n) s t stored h =
      let (same, _) = completed_call s t stored h in
      SameRows-trans same
        (completed_calls n _ t stored (IsCompleted-SameRows key hash t stored s.db _ same h))

  -- However often the call is repeated and whatever fails in between, at most one transaction is
  -- added to the journal, and it is the entry's.
  pub calls_post_once :
      (n : ℕ) (s : Session)
      → ((calls n s).db.transactions ≡ s.db.transactions)
        ⊎ ((i : ℕ) × ((calls n s).db.transactions ≡ s.db.transactions ++ txn_row i e ∷ []))
  calls_post_once zero s = inl refl
  calls_post_once (suc n) s = step (calls_post_once n) (call-Called s)
    where
      step :
          ((t : Session)
            → ((calls n t).db.transactions ≡ t.db.transactions)
              ⊎ ((i : ℕ) × ((calls n t).db.transactions ≡ t.db.transactions ++ txn_row i e ∷ [])))
          → {r : Result IdemResult} {s₁ : Session} → Called s r s₁
          → ((calls n s₁).db.transactions ≡ s.db.transactions)
            ⊎ ((i : ℕ) × ((calls n s₁).db.transactions ≡ s.db.transactions ++ txn_row i e ∷ []))
      step rest {s₁} (kept same) = elim (rest s₁) [
        | inl eq ↦ inl (eq ∙ same.transactions)
        | inr (i, eq) ↦ inr (i, eq ∙ ap (λ ts. ts ++ txn_row i e ∷ []) same.transactions)
      ]
      step rest {s₁} (posted db₁ x same o told) = inr (
        db₁.txn_seq,
        (completed_calls n s₁ x.txn_id x.response
              (Owned-IsCompleted key hash e response guard db₁ x s₁.db o)).transactions
            ∙ ap Db.transactions o.written
            ∙ ap Db.transactions o.posting.written
            ∙ ap (λ ts. ts ++ txn_row db₁.txn_seq e ∷ []) same.transactions,
      )
