-- ===== src/Loadgen/Trial.antt =====
-- internal/loadgen/checks.go: the submissions of one key in an idempotency trial.
use bytedance_double_entry_l.Prelude.{
  ℕ, zero, suc, ◌≡◌, refl, sym, ap, subst, ◌∙◌, String, Bool, true, false, ◌⊎◌, inl, inr, none,
  List, [], ◌∷◌, str_eq, find_row, ==_refl,
}
use bytedance_double_entry_l.Prelude.Int.{pos}
use bytedance_double_entry_l.Errors.{Result, ok, err, err-ne-ok}
use bytedance_double_entry_l.Money.Text.{Text}
use bytedance_double_entry_l.Store.Schema.{Db, Json, SameRows}
use bytedance_double_entry_l.Store.Session.{Session, continue, pure, run_in_tx, ◌>>=◌}
use bytedance_double_entry_l.Store.Session.Atomic.{run_in_tx-ok}
use bytedance_double_entry_l.Store.Idempotency.{
  IdemResult, idempotent_tx, read_replay, post_entry_idempotent, post_entry_idempotent_guarded,
}
use bytedance_double_entry_l.Store.Idempotency.Keys.{has_key, IsCompleted}
use bytedance_double_entry_l.Store.Idempotency.Once.{idempotent_tx-ok, Owned-IsCompleted}
use bytedance_double_entry_l.Store.Idempotency.Retry.{
  IsCompleted-SameRows, call-Called, Called, kept, posted, completed_call,
}
use bytedance_double_entry_l.Ops.{
  OpResult, Request, payment, payment_entry, post_idem, transfer_req, empty_response,
}
use bytedance_double_entry_l.Loadgen.Checks.{Config, note_id, submit}

-- No row of the table has the key.
abbrev pub IsUnused : String → Db → Type 0
IsUnused key db = find_row (has_key key) db.idempotency_keys ≡ none

unused_replay :
    (key hash : String) (db : Db) {x : IdemResult}
    → IsUnused key db
    → read_replay key hash db ≡ ok x
    → ⊥
unfolding read_replay
unused_replay key hash db unused h = err-ne-ok (rw (unused, read_replay) at h)

-- what post_idem makes of an answer of the store
abbrev told : Result IdemResult × Session → Result OpResult × Session
told (ok x, s) = (ok (record { txn_id = x.txn_id; replayed = x.replayed }), s)
told (err e, s) = (err e, s)

module _ (hash_request : Request → String) (to_string : Text → String) (c : Config) (key : String)
    (named : str_eq key "" ≡ false) (world sink : ℕ) where
  abbrev pub hash : String
  hash = hash_request (transfer_req "payment" world sink (pos 100) c.currency)

  abbrev call : Session → Result IdemResult × Session
  call s =
      post_entry_idempotent_guarded key hash (payment_entry world sink (pos 100) c.currency)
        empty_response none s

  abbrev answer : Session → Result OpResult × Session
  answer s = payment hash_request key world sink (pos 100) c.currency s

  answer-call : (s : Session) → answer s ≡ told (call s)
  unfolding payment post_idem post_entry_idempotent post_entry_idempotent_guarded ◌>>=◌
  answer-call s = rw named (
      split (
        run_in_tx
          (idempotent_tx key hash (payment_entry world sink (pos 100) c.currency) empty_response
            none)
          s))
    where
      split :
          (p : Result IdemResult × Session)
          → continue
              (λ (x : IdemResult). pure (record { txn_id = x.txn_id; replayed = x.replayed }))
              p.0
              p.1
            ≡ told p
      split (ok x, t) = refl
      split (err e, t) = refl

  call-completes :
      (s : Session) {x : IdemResult} {s' : Session}
      → IsUnused key s.db
      → call s ≡ (ok x, s')
      → IsCompleted key hash x.txn_id x.response s'.db
  unfolding post_entry_idempotent_guarded
  call-completes s {x} {s'} unused h =
      let e = payment_entry world sink (pos 100) c.currency in
      let (s₁, s₂, same, run, is) =
        run_in_tx-ok (idempotent_tx key hash e empty_response none) s (rw named at h) in
      elim (idempotent_tx-ok key hash e empty_response none s₁ run) [
        | inl o ↦
            subst (IsCompleted key hash x.txn_id x.response) (sym is)
              (Owned-IsCompleted key hash e empty_response none s₁.db x s₂.db o)
        | inr (found, eq) ↦
            absurd (unused_replay key hash s₁.db (rw (same.idempotency_keys) unused) found)
      ]

  -- the ids so far, and what the table knows of the key
  abbrev Tracks : List ℕ → Db → Type 0
  Tracks ids db =
      ((ids ≡ []) × IsUnused key db)
      ⊎ ((t : ℕ) × (stored : Json) × IsCompleted key hash t stored db
          × ((ids ≡ []) ⊎ (ids ≡ t ∷ [])))

  refused :
      (s : Session) (ids : List ℕ) {r : Result IdemResult} {s' : Session}
      → ids ≡ []
      → IsUnused key s.db
      → Called key hash (payment_entry world sink (pos 100) c.currency) empty_response none s r s'
      → Tracks ids s'.db
  refused s ids none_yet unused (kept same) = inl (none_yet, rw (same.idempotency_keys) unused)
  refused s ids {s' = s'} none_yet unused (posted db₁ x same o tells) =
      inr (x.txn_id, x.response, Owned-IsCompleted key hash _ _ _ db₁ x s'.db o, inl none_yet)

  noted :
      (t : ℕ) (replayed : Bool) (ids : List ℕ)
      → (ids ≡ []) ⊎ (ids ≡ t ∷ [])
      → note_id hash_request to_string c (ok (record { txn_id = t; replayed = replayed })) ids
        ≡ t ∷ []
  unfolding note_id
  noted t replayed ids (inl e) = rw e refl
  noted t replayed ids (inr e) = rw (e, ==_refl t) refl

  repeated :
      (s : Session) (t : ℕ) (stored : Json) {p : Result IdemResult × Session}
      → IsCompleted key hash t stored s.db
      → call s ≡ p
      → SameRows s.db p.1.db
        × ((x : IdemResult)
            → p.0 ≡ ok x
            → x ≡ record { txn_id = t; replayed = true; response = stored })
  repeated s t stored completed e =
      subst
        (λ (p : Result IdemResult × Session).
          SameRows s.db p.1.db
          × ((x : IdemResult)
              → p.0 ≡ ok x
              → x ≡ record { txn_id = t; replayed = true; response = stored }))
        e
        (completed_call key hash (payment_entry world sink (pos 100) c.currency) empty_response none
          s t stored completed)

  after :
      (s : Session) (ids : List ℕ) (p : Result IdemResult × Session)
      → call s ≡ p
      → Tracks ids s.db
      → Tracks (note_id hash_request to_string c (told p).0 ids) (told p).1.db
  unfolding note_id
  after s ids (ok x, s') e (inl (none_yet, unused)) = inr (
    x.txn_id,
    x.response,
    call-completes s unused e,
    inr (noted x.txn_id x.replayed ids (inl none_yet)),
  )
  after s ids (err f, s') e (inl (none_yet, unused)) = refused s ids none_yet unused (
      subst
        (λ (p : Result IdemResult × Session).
          Called key hash (payment_entry world sink (pos 100) c.currency) empty_response none s p.0
            p.1)
        e (call-Called key hash _ empty_response none s))
  after s ids (ok x, s') e (inr (t, stored, completed, which)) =
      let (same, tells) = repeated s t stored completed e in
      let is : t ≡ x.txn_id = sym (ap IdemResult.txn_id (tells x refl)) in
      inr (
        t,
        stored,
        IsCompleted-SameRows key hash t stored s.db s'.db same completed,
        inr (
            noted x.txn_id x.replayed ids (subst (λ i. (ids ≡ []) ⊎ (ids ≡ i ∷ [])) is which)
            ∙ ap (λ i. i ∷ []) (sym is)),
      )
  after s ids (err f, s') e (inr (t, stored, completed, which)) =
      let (same, tells) = repeated s t stored completed e in
      inr (t, stored, IsCompleted-SameRows key hash t stored s.db s'.db same completed, which)

  tracked :
      (n : ℕ) (ids : List ℕ) (s : Session)
      → Tracks ids s.db
      → let (ids', s') = submit hash_request to_string c n key world sink ids s in Tracks ids' s'.db
  unfolding submit
  tracked zero ids s h = h
  tracked (suc n) ids s h =
      tracked n (note_id hash_request to_string c (answer s).0 ids) (answer s).1 (
        subst
          (λ (p : Result OpResult × Session).
            Tracks (note_id hash_request to_string c p.0 ids) p.1.db)
          (sym (answer-call s)) (after s ids (call s) refl h))

  -- However often a trial submits its key, not the empty one and unused before, and whatever fails
  -- on the way, the answers without an error name no transaction, or all of them one and the same;
  -- in that case the key is stored as completed with the request and that transaction.
  pub submit_once :
      (n : ℕ) (s : Session)
      → IsUnused key s.db
      → let (ids, s') = submit hash_request to_string c n key world sink [] s in
        (ids ≡ [])
        ⊎ ((t : ℕ) × (ids ≡ t ∷ []) × (stored : Json) × IsCompleted key hash t stored s'.db)
  submit_once n s unused = elim (tracked n [] s (inl (refl, unused))) [
    | inl (none_named, still_unused) ↦ inl none_named
    | inr (t, stored, completed, inl none_named) ↦ inl none_named
    | inr (t, stored, completed, inr one_named) ↦ inr (t, one_named, stored, completed)
  ]
