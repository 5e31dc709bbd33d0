-- ===== src/Settle.antt =====
-- internal/settle: reconciliation.
pub mod Reconcile
pub mod Clean
pub mod Detects
