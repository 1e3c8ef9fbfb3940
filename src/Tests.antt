-- ===== src/Tests.antt =====
-- Runs of the theorems at concrete inputs.
pub mod Toy
pub mod Streams
pub mod Vaults
pub mod Sessions
pub mod Brokers
pub mod Places
pub mod Approvals
pub mod Threads
pub mod Stale
pub mod Programs
