-- ===== src/Loadgen.antt =====
-- internal/loadgen: the load harness, which runs transfers against the service and checks the books.
pub mod Metrics
pub mod Checks
pub mod Harness
pub mod Percentiles
pub mod Itoa
pub mod Counts
pub mod Final
pub mod Detects
pub mod Trial
