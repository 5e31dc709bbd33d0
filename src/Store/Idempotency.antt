-- ===== src/Store/Idempotency.antt =====
-- internal/store/idempotency.go: posting once for a key.
pub mod Keys
pub mod Once
pub mod Retry
pub mod Replay
use bytedance_double_entry_l.Prelude.{
  ℕ, String, Bool, true, false, Option, none, some, List, [], ◌∷◌, ◌++◌, map, find_row, any_row,
  if◌then◌else◌, str_eq,
}
use bytedance_double_entry_l.Prelude.Int.{pos}
use bytedance_double_entry_l.Errors.{
  Result, ok, err, key_required, no_rows, idempotency_conflict, unexpected_state,
}
use bytedance_double_entry_l.Ledger.Entry.{Entry}
use bytedance_double_entry_l.Store.Schema.{
  Db, KeyRow, Json, object, null, number, Fields, end, field, in_progress, completed,
}
use bytedance_double_entry_l.Store.Session.{Tx, query, exec, pure, fail, ◌>>=◌, ◌>>◌, run_in_tx}
use bytedance_double_entry_l.Store.Posting.{PostResult, Guard, post_entry_tx}

pub record IdemResult : Type 0 where
  pub txn_id : ℕ
  pub replayed : Bool
  pub response : Json

-- `m["txn_id"] = txnID`
unfoldable pub set_field : String → Json → Fields → Fields
set_field k v end = field k v end
set_field k v (field j w rest) =
    if str_eq j k then field j v rest else field j w (set_field k v rest)

-- only a JSON object is changed
unfoldable pub bind_txn_id : Json → ℕ → Json
unfolding set_field
bind_txn_id (object fields) txn_id = object (set_field "txn_id" (number (pos txn_id)) fields)
bind_txn_id json txn_id = json

abbrev pub claimed_row : String → String → KeyRow
claimed_row key hash = record {
  key = key;
  request_hash = hash;
  txn_id = none;
  response = null;
  status = in_progress;
}

-- INSERT ... ON CONFLICT (key) DO NOTHING RETURNING key
unfoldable pub claim_key : String → String → Db → Result Bool × Db
claim_key key hash db =
    if any_row (λ (k : KeyRow). str_eq k.key key) db.idempotency_keys then (ok false, db) else (
      ok true,
      record db { idempotency_keys = db.idempotency_keys ++ claimed_row key hash ∷ [] },
    )

abbrev pub finalized : String → ℕ → Json → KeyRow → KeyRow
finalized key txn_id response k =
    if str_eq k.key key
    then record k { txn_id = some txn_id; response = response; status = completed }
    else k

-- UPDATE idempotency_keys SET txn_id, response, status='completed' WHERE key
unfoldable pub finalize_key : String → ℕ → Json → Db → Result (Unit {0}) × Db
finalize_key key txn_id response db = (
  ok tt,
  record db { idempotency_keys = map (finalized key txn_id response) db.idempotency_keys },
)

abbrev pub replay_of : String → KeyRow → Result IdemResult
replay_of hash k =
    if str_eq k.request_hash hash
    then (elim k.status [
      | in_progress ↦ err unexpected_state
      | completed ↦ elim k.txn_id [
        | none ↦ err unexpected_state
        | some t ↦ ok (record { txn_id = t; replayed = true; response = k.response })
      ]
    ])
    else err idempotency_conflict

unfoldable pub read_replay : String → String → Db → Result IdemResult
read_replay key hash db = elim (find_row (λ (k : KeyRow). str_eq k.key key) db.idempotency_keys) [
  | none ↦ err no_rows
  | some k ↦ replay_of hash k
]

-- the owner of the key posts, and stores the response with the transaction's id
unfoldable pub post_owned : String → Entry → Json → Option Guard → Tx IdemResult
post_owned key e response guard = do
  r ← post_entry_tx e guard
  exec (finalize_key key r.txn_id (bind_txn_id response r.txn_id))
  pure (record { txn_id = r.txn_id; replayed = false; response = bind_txn_id response r.txn_id })

unfoldable pub idempotent_tx : String → String → Entry → Json → Option Guard → Tx IdemResult
idempotent_tx key hash e response guard = do
  claimed ← exec (claim_key key hash)
  if claimed then post_owned key e response guard else query (read_replay key hash)

unfoldable pub post_entry_idempotent_guarded :
    String → String → Entry → Json → Option Guard → Tx IdemResult
post_entry_idempotent_guarded key hash e response guard =
    if str_eq key "" then fail key_required else run_in_tx (idempotent_tx key hash e response guard)

unfoldable pub post_entry_idempotent : String → String → Entry → Json → Tx IdemResult
unfolding post_entry_idempotent_guarded
post_entry_idempotent key hash e response = post_entry_idempotent_guarded key hash e response none
