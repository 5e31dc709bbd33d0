-- ===== src/Store/Idempotency/Replay.antt =====
-- internal/store/idempotency.go: the replay path on a database that does not fail.
use bytedance_double_entry_l.Prelude.{
  ℕ, ◌≡◌, refl, ◌∙◌, String, true, false, Option, [], str_eq, find_row-any_row-true,
}
use bytedance_double_entry_l.Errors.{ok}
use bytedance_double_entry_l.Ledger.Entry.{Entry}
use bytedance_double_entry_l.Store.Schema.{Db, Json}
use bytedance_double_entry_l.Store.Session.{
  Session, next_fault, exec, query, ◌>>=◌, commit, attempt, attempts, run_in_tx,
}
use bytedance_double_entry_l.Store.Posting.{Guard}
use bytedance_double_entry_l.Store.Idempotency.{
  IdemResult, claim_key, read_replay, idempotent_tx, post_entry_idempotent_guarded,
}
use bytedance_double_entry_l.Store.Idempotency.Keys.{
  IsCompleted, has_key, read_replay-completed, replay_same,
}

module _ (key hash : String) (e : Entry) (response : Json) (guard : Option Guard) (db : Db) (t : ℕ)
    (stored : Json) (done : IsCompleted key hash t stored db) where
  abbrev quiet : Session
  quiet = record { db = db; faults = [] }

  abbrev replayed_result : IdemResult
  replayed_result = record { txn_id = t; replayed = true; response = stored }

  claim_key-taken : claim_key key hash db ≡ (ok false, db)
  unfolding claim_key
  claim_key-taken = rw (find_row-any_row-true (has_key key) db.idempotency_keys done) refl

  read_back : read_replay key hash db ≡ ok replayed_result
  read_back = read_replay-completed key hash hash t stored db done ∙ replay_same key hash t stored

  idempotent_tx-replays :
      idempotent_tx key hash e response guard quiet ≡ (ok replayed_result, quiet)
  unfolding idempotent_tx ◌>>=◌ exec query next_fault
  idempotent_tx-replays = rw (claim_key-taken, read_back) refl

  -- With the key completed for this request and a database that does not fail, a call returns the
  -- stored transaction with the stored response, marked as replayed, and changes nothing.
  pub completed_call-returns :
      str_eq key "" ≡ false
      → post_entry_idempotent_guarded key hash e response guard quiet ≡ (ok replayed_result, quiet)
  unfolding post_entry_idempotent_guarded run_in_tx attempts attempt commit next_fault
  completed_call-returns named = rw (named, idempotent_tx-replays) refl
