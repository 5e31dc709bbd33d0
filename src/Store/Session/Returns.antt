-- ===== src/Store/Session/Returns.antt =====
-- internal/store/store.go: after few enough retries, what runInTx returns.
use bytedance_double_entry_l.Store.Session.{Session}
