-- ===== src/Tests/Runs.antt =====
-- The theorems on retries and locks at concrete inputs.
use bytedance_double_entry_l.Prelude.{All, total, ◌≡◌, ℕ, none, some, List, [], ◌∷◌, ◌+◌, ◌⊎◌}
use bytedance_double_entry_l.Prelude.Int.{pos}
use bytedance_double_entry_l.Errors.{serialization_failure, deadlock_detected}
use bytedance_double_entry_l.Store.Session.{Session, run_in_tx, pure}
use bytedance_double_entry_l.Store.Session.Retries.{Ended, run_in_tx-Ended}
use bytedance_double_entry_l.Store.Locks.{
  idempotency_key, account, Job, posting, settlement, Worker, Step, take_lock, Steps, no_step,
  then_step, begin_all, work, Lock,
}
use bytedance_double_entry_l.Store.Locks.Progress.{locks_never_deadlock}
use bytedance_double_entry_l.Ops.{transfer_entry}
use bytedance_double_entry_l.Settle.Detects.{reconcile-detects}
use bytedance_double_entry_l.Settle.Clean.{reconcile-clean}
use bytedance_double_entry_l.Store.Books.{posted_to, posted_by, posted_in}
use bytedance_double_entry_l.Store.Schema.{AccountRow}
use bytedance_double_entry_l.Money.Currency.{Currency}
use bytedance_double_entry_l.Tests.Fixtures.{demo_db, demo, demo_db-IsSound, demo_db-HasSizedSums}

-- a server that aborts the first two commits
abbrev busy : Session
busy = record {
  db = demo_db;
  faults = none ∷ some serialization_failure ∷ none ∷ some deadlock_detected ∷ [];
}

abbrev calm : Session
calm = record { db = demo_db; faults = [] }

run_in_tx-Ended_example :
    let (r, s') = run_in_tx {A = ℕ} (pure 7) busy in Ended {A = ℕ} (pure 7) 25 none busy r s'
run_in_tx-Ended_example = run_in_tx-Ended (pure 7) busy

-- two transfers in opposite directions, one of them with a key
abbrev jobs : List Job
jobs =
    posting none (transfer_entry 2 1 (pos 20) "USD").legs
    ∷ posting (some "k") (transfer_entry 1 2 (pos 30) "USD").legs
    ∷ []

abbrev one_locked : List Worker
one_locked =
    record { held = account 1 ∷ []; wanted = account 2 ∷ [] }
    ∷ record { held = []; wanted = idempotency_key "k" ∷ account 1 ∷ account 2 ∷ [] }
    ∷ []

first_lock : Steps (begin_all jobs) 1 one_locked
unfolding begin_all bytedance_double_entry_l.Store.Locks.locks_of
    bytedance_double_entry_l.Store.Locks.posting_locks
    bytedance_double_entry_l.Store.Posting.distinct_sorted_account_ids
    bytedance_double_entry_l.Store.Posting.distinct_ids bytedance_double_entry_l.Ops.transfer_entry
first_lock = then_step no_step (
    take_lock []
      (record { held = []; wanted = idempotency_key "k" ∷ account 1 ∷ account 2 ∷ [] } ∷ []) []
      (account 2 ∷ []) (account 1) (tt, tt))

locks_never_deadlock_example :
    ((one_locked ≡ []) ⊎ ((us : List Worker) × Step one_locked us))
    × (1 + work one_locked ≡ work (begin_all jobs))
locks_never_deadlock_example = locks_never_deadlock jobs 1 one_locked first_lock

reconcile-detects_example :
    All (λ (a : AccountRow). a.balance ≡ total (posted_to a.id) demo_db.postings) demo_db.accounts
    × ((t : ℕ) (c : Currency) → total (posted_by t c) demo_db.postings ≡ pos 0)
    × ((c : Currency) → total (posted_in c) demo_db.postings ≡ pos 0)
reconcile-detects_example =
    let (rep, runs, is_ok, drift, unbalanced) =
      reconcile-clean demo_db demo_db-IsSound demo_db-HasSizedSums in
    reconcile-detects demo runs is_ok
