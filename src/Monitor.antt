-- ===== src/Monitor.antt =====
-- The receiving side, source/src/lldp_monitor.cc: what is read from LLDP frames and kept.
pub mod Entry
pub mod Neighbours
pub mod Frames
pub mod Socket
