-- ===== src/Memory.antt =====
-- src/memory: the memories and the bus that joins them with the devices.
pub mod Bytes
pub mod Ram
pub mod Bios
pub mod Flash
