-- ===== src/Store.antt =====
-- internal/store: the Postgres tables, transactions on them, and the operations of the store.
pub mod Schema
pub mod Session
pub mod Mode
pub mod Posting
pub mod Books
pub mod Accounts
pub mod Payments
pub mod Idempotency
pub mod Queries
pub mod Settlement
pub mod Locks
