-- ===== src/Models.antt =====
-- models.rs: the data of the program.
pub mod Hardware
pub mod Network
pub mod Snmp
pub mod SwitchConfig
pub mod State
