-- ===== src/Tests.antt =====
-- Runs of the model on small inputs.
pub mod Fixtures
pub mod Amounts
pub mod Examples
pub mod Http
pub mod Runs
pub mod Settlements
pub mod Load
pub mod Moves
