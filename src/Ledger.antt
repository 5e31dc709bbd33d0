-- ===== src/Ledger.antt =====
-- internal/ledger: the domain types and the balancing invariant.
pub mod Entry
pub mod Balance
