-- ===== src/Tests.antt =====
-- Runs of the models and instances of the theorems, on small clusters.
pub mod Clocks
pub mod Rings
pub mod Backends
pub mod Heartbeats
pub mod Quorums
pub mod Replays
pub mod Requests
pub mod Records
pub mod Trio
pub mod Writes
pub mod Deletions
pub mod Settings
pub mod Certificates
pub mod Attacks
pub mod Benchmarks
