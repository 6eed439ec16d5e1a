-- ===== src/Vendors.antt =====
-- vendors/: the drivers of the switches.
pub mod Aruba
