-- ===== src/Monitor/Socket/Delivery.antt =====
-- Which datagrams reach the callback of EthernetLldpMonitor, source/src/lldp_monitor.cc.
use link_layer_discovery.Base.{
  ℕ, ◌≤◌, ◌<◌, ◌≡◌, List, none, some, arith, length, take, length-take, take_of_length-le,
}
use link_layer_discovery.Monitor.Frames.{SockaddrLl}
use link_layer_discovery.Monitor.Socket.{Socket, max_frame_buffer_size, grow, call}

-- The kernel's answers for one datagram in the queue: the peek tells its length, and a read copies
-- as much of it as the buffer holds.
pub record Holds (s : Socket) (address : SockaddrLl) (datagram : List ℕ) : Type 0 where
  pub peeks : s.peek ≡ some (length datagram)
  pub receives : (size : ℕ) → s.receive size ≡ some (address, take size datagram)

-- The buffer never exceeds 1600 bytes, and never shrinks.
pub call_buffer :
    (size : ℕ) (s : Socket)
    → size ≤ max_frame_buffer_size
    → ((call size s).0 ≤ max_frame_buffer_size) × (size ≤ (call size s).0)
unfolding call
call_buffer size s h = ground arith

-- Where the kernel holds a datagram of at most 1600 bytes, and copies as much of it as the buffer
-- takes, the callback gets the whole datagram with its sender.
pub call_delivers :
    (size : ℕ) (s : Socket) (address : SockaddrLl) (datagram : List ℕ)
    → Holds s address datagram
    → length datagram ≤ max_frame_buffer_size
    → (call size s).1 ≡ some (address, datagram)
unfolding call
call_delivers size s address datagram h fits = ground (
  arith,
  h.peeks,
  h.receives (grow size (length datagram)),
  take_of_length-le (grow size (length datagram)) datagram,
)

-- Where the kernel holds a datagram of more than 1600 bytes, and the buffer has at most that many, the
-- callback is not called: the datagram is never delivered cut off.
pub call_drops :
    (size : ℕ) (s : Socket) (address : SockaddrLl) (datagram : List ℕ)
    → Holds s address datagram
    → size ≤ max_frame_buffer_size
    → max_frame_buffer_size < length datagram
    → (call size s).1 ≡ none
unfolding call
call_drops size s address datagram h small long = ground (
  arith,
  h.peeks,
  h.receives (grow size (length datagram)),
  length-take (grow size (length datagram)) datagram,
)
