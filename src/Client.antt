-- ===== src/Client.antt =====
-- The client protocol, source/include/client.hh and source/src/client.cc.
pub mod Packet
pub mod Dump
pub mod Receive
pub mod Yield
pub mod Parts
pub mod EndToEnd
pub mod Overflow
pub mod Sockets
pub mod Main
pub mod Listen
pub mod Table
pub mod Transport
pub mod Program
