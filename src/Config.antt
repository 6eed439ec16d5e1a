-- ===== src/Config.antt =====
-- config.rs: loading, merging and validating configurations.
pub mod Result
pub mod PortRange
pub mod Names
pub mod References
pub mod Snmp
pub mod Validate
pub mod Overlay
pub mod Merge
pub mod Load
