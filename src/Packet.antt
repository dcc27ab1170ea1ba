-- ===== src/Packet.antt =====
-- The LLDP codec, source/src/lldp_packet.cc. A span is the list of its bytes. `to_frame_buffer`
-- gives the bytes that the method writes at its iterator; the iterator that it returns stands
-- behind them.
pub mod Tlv
pub mod DataUnit
pub mod Frame
