-- ===== src/Store/Locks.antt =====
-- internal/store/postings.go, idempotency.go and settlement.go: the locks that a transaction takes,
-- in their order. Postgres is outside: FOR UPDATE grants a row's lock when no other transaction holds
-- it, an INSERT of an idempotency key waits likewise for another one of the same key, and COMMIT and
-- ROLLBACK give everything back. A lock that the transaction has already is not taken again, which
-- is the case of the accounts of a batch's payouts.
pub mod Order
pub mod Progress
use bytedance_double_entry_l.Prelude.{
  ℕ, zero, suc, ◌≡◌, ◌<◌, String, Option, none, some, List, [], ◌∷◌, ◌++◌, map, All, length, ◌+◌,
}
use bytedance_double_entry_l.Money.Currency.{Currency}
use bytedance_double_entry_l.Ledger.Entry.{Leg}
use bytedance_double_entry_l.Store.Posting.{distinct_sorted_account_ids}
use bytedance_double_entry_l.Store.Settlement.{union_sorted_ids}

pub data Lock : Type 0 where
  idempotency_key : String → Lock
  account : ℕ → Lock

-- A keyed posting claims its key before it locks the accounts of its legs. A replay ends after the
-- key; here it may take the locks of the accounts too, which only adds to what can wait.
unfoldable pub posting_locks : Option String → List Leg → List Lock
posting_locks none legs = map account (distinct_sorted_account_ids legs)
posting_locks (some key) legs = idempotency_key key ∷ map account (distinct_sorted_account_ids legs)

-- A batch locks the merchants and the payout accounts.
unfoldable pub settlement_locks : List ℕ → List (Currency × ℕ) → List Lock
settlement_locks merchants payouts = map account (union_sorted_ids merchants payouts)

pub data Job : Type 0 where
  posting : Option String → List Leg → Job
  settlement : List ℕ → List (Currency × ℕ) → Job

unfoldable pub locks_of : Job → List Lock
unfolding posting_locks settlement_locks
locks_of (posting key legs) = posting_locks key legs
locks_of (settlement merchants payouts) = settlement_locks merchants payouts

-- A transaction under way: the locks it holds, and those it has yet to take.
pub record Worker : Type 0 where
  pub held : List Lock
  pub wanted : List Lock

abbrev pub IsFree : Lock → List Worker → Type 0
IsFree l others = All (λ (w : Worker). All (λ (m : Lock). m ≡ l → ⊥) w.held) others

-- One transaction, at any place of the list, takes the next lock that it wants, or ends.
pub data Step : List Worker → List Worker → Type 0 where
  take_lock :
      (before after : List Worker) (held wanted : List Lock) (l : Lock)
      → IsFree l (before ++ after)
      → Step
          (before ++ record { held = held; wanted = l ∷ wanted } ∷ after)
          (before ++ record { held = l ∷ held; wanted = wanted } ∷ after)
  end :
      (before after : List Worker) (held : List Lock)
      → Step (before ++ record { held = held; wanted = [] } ∷ after) (before ++ after)

pub data Steps (start : List Worker) : ℕ → List Worker → Type 0 where
  no_step : Steps start 0 start
  then_step : {n : ℕ} {ws us : List Worker} → Steps start n ws → Step ws us → Steps start (suc n) us

abbrev waiting : Job → Worker
waiting j = record { held = []; wanted = locks_of j }

-- The transactions before any lock.
unfoldable pub begin_all : List Job → List Worker
begin_all jobs = map waiting jobs

-- all locks that are to be taken, and all ends
abbrev pub work : List Worker → ℕ
work [] = 0
work (w ∷ ws) = suc (length w.wanted) + work ws
