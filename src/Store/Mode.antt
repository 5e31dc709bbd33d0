-- ===== src/Store/Mode.antt =====
-- internal/store/store.go: the isolation modes, the delay before a retry, and Reset.
use bytedance_double_entry_l.Prelude.{ℕ, suc, ◌*◌, ltb, String, if◌then◌else◌, []}
use bytedance_double_entry_l.Errors.{Result, ok}
use bytedance_double_entry_l.Store.Schema.{Db}
use bytedance_double_entry_l.Store.Session.{Tx, auto_exec}

pub data IsolationMode : Type 0 where
  row_lock serializable : IsolationMode

-- pgx.ReadCommitted and pgx.Serializable
pub data IsoLevel : Type 0 where
  read_committed serializable_level : IsoLevel

unfoldable pub tx_options : IsolationMode → IsoLevel
tx_options serializable = serializable_level
tx_options row_lock = read_committed

-- `string(s.st.Mode())`
unfoldable pub mode_text : IsolationMode → String
mode_text row_lock = "rowlock"
mode_text serializable = "serializable"

-- in microseconds
unfoldable pub backoff : ℕ → ℕ
backoff n = let d = suc n * 200 in if ltb 5000 d then 5000 else d

-- TRUNCATE ... RESTART IDENTITY CASCADE
unfoldable pub truncate : Db → Result (Unit {0}) × Db
truncate db = (
  ok tt,
  record {
    accounts = [];
    transactions = [];
    postings = [];
    idempotency_keys = [];
    settlement_batches = [];
    account_seq = 1;
    txn_seq = 1;
    posting_seq = 1;
    batch_seq = 1;
  },
)

unfoldable pub reset : Tx (Unit {0})
reset = auto_exec truncate
