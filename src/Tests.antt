-- ===== src/Tests.antt =====
-- Examples: a small switch, and the theorems applied to it.
pub mod Data
pub mod Diff
pub mod Config
pub mod Secrets
pub mod Sessions
pub mod Status
pub mod Load
pub mod Drivers
mod Hosts
