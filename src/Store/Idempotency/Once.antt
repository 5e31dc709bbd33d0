-- ===== src/Store/Idempotency/Once.antt =====
-- internal/store/idempotency.go: the body of the transaction for a key, where it succeeds.
use bytedance_double_entry_l.Prelude.{
  ℕ, ◌≡◌, ◌≢◌, refl, sym, ap, subst, ◌∙◌, String, Bool, Bool-cases, true, false, false≢true, ◌⊎◌,
  inl, inr, Option, some, List, [], ◌∷◌, ◌++◌, map, find_row, any_row, find_row-any_row-true,
  find_row-append_new, find_row-map, if◌then◌else◌, str_eq, eq_iff,
}
use bytedance_double_entry_l.Errors.{Result, ok, ok_inj, err-ne-ok}
use bytedance_double_entry_l.Ledger.Entry.{Entry}
use bytedance_double_entry_l.Store.Schema.{Db, KeyRow, Json}
use bytedance_double_entry_l.Store.Session.{Session, Tx, query, exec, pure, ◌>>◌}
use bytedance_double_entry_l.Store.Session.Inversion.{>>=-ok, query-ok, exec-ok, fst_eq, snd_eq}
use bytedance_double_entry_l.Store.Posting.{PostResult, Guard, post_entry_tx}
use bytedance_double_entry_l.Store.Posting.Commit.{Posted, post_entry_tx-Posted}
use bytedance_double_entry_l.Store.Idempotency.{
  IdemResult, bind_txn_id, claimed_row, claim_key, finalized, finalize_key, read_replay, post_owned,
  idempotent_tx,
}
use bytedance_double_entry_l.Store.Idempotency.Keys.{
  completed_row, has_key, IsCompleted, finalized-has_key, finalized-claimed_row,
  read_replay-completed, replay_same, replay_other,
}

abbrev with_claim : String → String → Db → Db
with_claim key hash db = record db {
  idempotency_keys = db.idempotency_keys ++ claimed_row key hash ∷ [];
}

abbrev with_final : String → ℕ → Json → Db → Db
with_final key t response db = record db {
  idempotency_keys = map (finalized key t response) db.idempotency_keys;
}

-- A run of the body that owns the key: one posting on the rows with the claim, then the answer.
pub record Owned (key hash : String) (e : Entry) (response : Json) (guard : Option Guard) (db : Db)
    (r : IdemResult) (db' : Db) : Type 0 where
  pub posted : PostResult
  pub mid : Db
  pub new_key : any_row (has_key key) db.idempotency_keys ≡ false
  pub posting : Posted e guard (with_claim key hash db) posted mid
  pub result : r ≡ record {
    txn_id = posted.txn_id;
    replayed = false;
    response = bind_txn_id response posted.txn_id;
  }
  pub written : db' ≡ with_final key posted.txn_id (bind_txn_id response posted.txn_id) mid

module _ (key hash : String) (e : Entry) (response : Json) (guard : Option Guard) where
  post_owned-ok :
      (s : Session) {r : IdemResult} {s' : Session}
      → post_owned key e response guard s ≡ (ok r, s')
      → (p : PostResult) × (mid : Db) × Posted e guard s.db p mid
        × (r ≡ record {
          txn_id = p.txn_id;
          replayed = false;
          response = bind_txn_id response p.txn_id;
        })
        × (s'.db ≡ with_final key p.txn_id (bind_txn_id response p.txn_id) mid)
  unfolding post_owned finalize_key ◌>>◌
  post_owned-ok s h =
      let final : PostResult → Tx IdemResult = λ p. pure (record {
        txn_id = p.txn_id;
        replayed = false;
        response = bind_txn_id response p.txn_id;
      }) in
      let (p, s₁, post, h₁) =
        >>=-ok (post_entry_tx e guard)
          (λ p. exec (finalize_key key p.txn_id (bind_txn_id response p.txn_id)) >> final p) s h in
      let (_, s₂, update, h₂) =
        >>=-ok (exec (finalize_key key p.txn_id (bind_txn_id response p.txn_id))) (λ _. final p) s₁
          h₁ in
      (
        p,
        s₁.db,
        post_entry_tx-Posted e guard s post,
        sym (ok_inj (fst_eq h₂)),
        sym (ap Session.db (snd_eq h₂))
            ∙ sym (
                ap (λ (q : Result (Unit {0}) × Db). q.1)
                  (exec-ok (finalize_key key p.txn_id (bind_txn_id response p.txn_id)) s₁ update)),
      )

  claimed_ok :
      (db : Db) {b : Bool} {db' : Db}
      → claim_key key hash db ≡ (ok b, db')
      → ((any_row (has_key key) db.idempotency_keys ≡ true) × (b ≡ false) × (db' ≡ db))
        ⊎ ((any_row (has_key key) db.idempotency_keys ≡ false)
            × (b ≡ true)
            × (db' ≡ with_claim key hash db))
  unfolding claim_key
  claimed_ok db h = elim (Bool-cases (any_row (has_key key) db.idempotency_keys)) [
    | inl there ↦
        let k = rw there at h in
        inl (
          there,
          sym (ok_inj (ap (λ (p : Result Bool × Db). p.0) k)),
          sym (ap (λ (p : Result Bool × Db). p.1) k),
        )
    | inr new ↦
        let k = rw new at h in
        inr (
          new,
          sym (ok_inj (ap (λ (p : Result Bool × Db). p.0) k)),
          sym (ap (λ (p : Result Bool × Db). p.1) k),
        )
  ]

  -- A successful run owns the key and posts, or finds the key and replays.
  pub idempotent_tx-ok :
      (s : Session) {r : IdemResult} {s' : Session}
      → idempotent_tx key hash e response guard s ≡ (ok r, s')
      → Owned key hash e response guard s.db r s'.db
        ⊎ ((read_replay key hash s.db ≡ ok r) × (s'.db ≡ s.db))
  unfolding idempotent_tx
  idempotent_tx-ok s {r} {s'} h =
      let go : Bool → Tx IdemResult = λ claimed.
        if claimed then post_owned key e response guard else query (read_replay key hash) in
      let (claimed, s₁, claim, rest) = >>=-ok (exec (claim_key key hash)) go s h in
      branch claimed s₁ (claimed_ok s.db (exec-ok (claim_key key hash) s claim)) rest
    where
      branch :
          (claimed : Bool) (s₁ : Session)
          → ((any_row (has_key key) s.db.idempotency_keys ≡ true)
              × (claimed ≡ false)
              × (s₁.db ≡ s.db))
            ⊎ ((any_row (has_key key) s.db.idempotency_keys ≡ false)
                × (claimed ≡ true)
                × (s₁.db ≡ with_claim key hash s.db))
          → (if claimed then post_owned key e response guard else query (read_replay key hash)) s₁
            ≡ (ok r, s')
          → Owned key hash e response guard s.db r s'.db
            ⊎ ((read_replay key hash s.db ≡ ok r) × (s'.db ≡ s.db))
      branch true s₁ (inl (there, is, same)) k = absurd (false≢true (sym is))
      branch false s₁ (inr (new, is, same)) k = absurd (false≢true is)
      branch false s₁ (inl (there, is, same)) k =
          let (found, kept) = query-ok (read_replay key hash) s₁ k in
          inr (ap (read_replay key hash) (sym same) ∙ found, kept ∙ same)
      branch true s₁ (inr (new, is, same)) k =
          let (p, mid, post, result, written) = post_owned-ok s₁ k in
          inl (record {
            posted = p;
            mid = mid;
            new_key = new;
            posting = subst (λ db. Posted e guard db p mid) same post;
            result = result;
            written = written;
          })

  -- What the owner leaves behind is the key, completed, with the transaction and its response.
  pub Owned-IsCompleted :
      (db : Db) (r : IdemResult) (db' : Db)
      → Owned key hash e response guard db r db'
      → IsCompleted key hash r.txn_id r.response db'
  Owned-IsCompleted db r db' o =
      subst
        (λ d.
          find_row (has_key key) d.idempotency_keys
          ≡ some (completed_row key hash r.txn_id r.response))
        (sym (o.written ∙ ap (with_final key t stored) o.posting.written))
        (find_row-map (has_key key) (finalized key t stored) keys (finalized-has_key key t stored) (
            find_row-append_new (has_key key) db.idempotency_keys (claimed_row key hash) o.new_key
              same_key)
          ∙ ap some (finalized-claimed_row key hash t stored same_key)
          ∙ ap (λ (x : IdemResult). some (completed_row key hash x.txn_id x.response))
              (sym o.result))
    where
      t : ℕ
      t = o.posted.txn_id

      stored : Json
      stored = bind_txn_id response o.posted.txn_id

      keys : List KeyRow
      keys = db.idempotency_keys ++ claimed_row key hash ∷ []

      same_key : str_eq key key ≡ true
      same_key = (eq_iff key key).1 refl

  -- With the key completed, a successful run replays what is stored.
  pub replays :
      (s : Session) (t : ℕ) (stored : Json) {r : IdemResult} {s' : Session}
      → IsCompleted key hash t stored s.db
      → idempotent_tx key hash e response guard s ≡ (ok r, s')
      → (r ≡ record { txn_id = t; replayed = true; response = stored }) × (s'.db ≡ s.db)
  replays s t stored h run = elim (idempotent_tx-ok s run) [
    | inl o ↦
        absurd
          (false≢true (sym o.new_key ∙ find_row-any_row-true (has_key key) s.db.idempotency_keys h))
    | inr (found, same) ↦ (
      sym (
          ok_inj (
            sym
              (read_replay-completed key hash hash t stored s.db h ∙ replay_same key hash t stored)
            ∙ found)),
      same,
    )
  ]

  -- With the key completed for another request, no run succeeds.
  pub conflicts :
      (s : Session) (other : String) (t : ℕ) (stored : Json) {r : IdemResult} {s' : Session}
      → str_eq other hash ≡ false
      → IsCompleted key other t stored s.db
      → idempotent_tx key hash e response guard s ≢ (ok r, s')
  conflicts s other t stored differs h run = elim (idempotent_tx-ok s run) [
    | inl o ↦
        absurd
          (false≢true (sym o.new_key ∙ find_row-any_row-true (has_key key) s.db.idempotency_keys h))
    | inr (found, same) ↦ absurd (
        err-ne-ok (
          sym (
            read_replay-completed key hash other t stored s.db h
            ∙ replay_other key hash other t stored differs)
          ∙ found))
  ]
