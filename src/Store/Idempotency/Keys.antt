-- ===== src/Store/Idempotency/Keys.antt =====
-- The rows of idempotency_keys: what finalizing and reading a key give.
use bytedance_double_entry_l.Prelude.{
  ap, sym, Option, none, false, ℕ, ◌≡◌, refl, String, Bool, Bool-cases, true, false, inl, inr, some,
  find_row, str_eq, eq_iff,
}
use bytedance_double_entry_l.Errors.{
  ok_inj, err-ne-ok, unexpected_state, no_rows, ok, err, idempotency_conflict,
}
use bytedance_double_entry_l.Store.Schema.{KeyStatus, in_progress, Db, KeyRow, Json, completed}
use bytedance_double_entry_l.Store.Idempotency.{
  IdemResult, claimed_row, finalized, replay_of, read_replay,
}

abbrev pub completed_row : String → String → ℕ → Json → KeyRow
completed_row key hash t response = record {
  key = key;
  request_hash = hash;
  txn_id = some t;
  response = response;
  status = completed;
}

abbrev pub has_key : String → KeyRow → Bool
has_key key k = str_eq k.key key

-- The key is stored with this request, transaction and response.
abbrev pub IsCompleted : String → String → ℕ → Json → Db → Type 0
IsCompleted key hash t response db =
    find_row (has_key key) db.idempotency_keys ≡ some (completed_row key hash t response)

pub finalized-has_key :
    (key : String) (t : ℕ) (response : Json) (k : KeyRow)
    → has_key key (finalized key t response k) ≡ has_key key k
finalized-has_key key t response k = elim (Bool-cases (str_eq k.key key)) [
  | inl same ↦ rw same same
  | inr other ↦ rw other other
]

pub finalized-claimed_row :
    (key hash : String) (t : ℕ) (response : Json)
    → str_eq key key ≡ true
    → finalized key t response (claimed_row key hash) ≡ completed_row key hash t response
finalized-claimed_row key hash t response same = rw same refl

pub read_replay-completed :
    (key hash other : String) (t : ℕ) (stored : Json) (db : Db)
    → IsCompleted key other t stored db
    → read_replay key hash db ≡ replay_of hash (completed_row key other t stored)
unfolding read_replay
read_replay-completed key hash other t stored db h = rw (h, read_replay) refl

pub replay_same :
    (key hash : String) (t : ℕ) (stored : Json)
    → replay_of hash (completed_row key hash t stored)
      ≡ ok (record { txn_id = t; replayed = true; response = stored })
replay_same key hash t stored = rw ((eq_iff hash hash).1 refl) refl

pub replay_other :
    (key hash other : String) (t : ℕ) (stored : Json)
    → str_eq other hash ≡ false
    → replay_of hash (completed_row key other t stored) ≡ err idempotency_conflict
replay_other key hash other t stored differs = rw differs refl

-- A stored result is marked as replayed.
replay_of-replayed :
    (hash : String) (k : KeyRow) {r : IdemResult} → replay_of hash k ≡ ok r → r.replayed ≡ true
replay_of-replayed hash k h = elim (Bool-cases (str_eq k.request_hash hash)) [
  | inl same ↦ status k.status k.txn_id (rw same at h)
  | inr other ↦ absurd (err-ne-ok (rw other at h))
]
  where
    status :
        (status : KeyStatus) (t : Option ℕ) {r : IdemResult}
        → (elim status [
          | in_progress ↦ err unexpected_state
          | completed ↦ elim t [
            | none ↦ err unexpected_state
            | some i ↦ ok (record { txn_id = i; replayed = true; response = k.response })
          ]
        ])
          ≡ ok r
        → r.replayed ≡ true
    status in_progress t e = absurd (err-ne-ok e)
    status completed none e = absurd (err-ne-ok e)
    status completed (some i) e = sym (ap IdemResult.replayed (ok_inj e))

pub read_replay-replayed :
    (key hash : String) (db : Db) {r : IdemResult}
    → read_replay key hash db ≡ ok r
    → r.replayed ≡ true
unfolding read_replay
read_replay-replayed key hash db h =
    found (find_row (λ (k : KeyRow). str_eq k.key key) db.idempotency_keys) h
  where
    found :
        (o : Option KeyRow) {r : IdemResult}
        → (elim o [ none ↦ err no_rows | some k ↦ replay_of hash k ]) ≡ ok r
        → r.replayed ≡ true
    found none e = absurd (err-ne-ok e)
    found (some k) e = replay_of-replayed hash k e
