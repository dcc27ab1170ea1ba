-- ===== src/Monitor/Socket.antt =====
-- EthernetLldpMonitor::Call of source/src/lldp_monitor.cc. The socket is a parameter: what the two
-- `recvmsg` calls answer.
pub mod Delivery
use link_layer_discovery.Base.{ℕ, List, [], Option, none, some, length, ltb, ◌==◌, if◌then◌else◌}
use link_layer_discovery.Monitor.Frames.{SockaddrLl}

abbrev pub max_frame_buffer_size : ℕ
max_frame_buffer_size = 1600

-- `peek` is the answer to `recvmsg(MSG_PEEK | MSG_TRUNC)`, the real length of the next datagram;
-- `receive` answers `recvmsg` with a buffer of a size by the sender's address and the bytes that
-- were copied. `none` is -1.
pub record Socket : Type 0 where
  pub peek : Option ℕ
  pub receive : ℕ → Option (SockaddrLl × List ℕ)

-- The size of `message_buffer_` after `resize`.
grow : ℕ → ℕ → ℕ
grow size peeked =
    if ltb size peeked
    then (if ltb max_frame_buffer_size peeked then max_frame_buffer_size else peeked)
    else size

deliver : ℕ → Option (SockaddrLl × List ℕ) → Option (SockaddrLl × List ℕ)
deliver peeked none = none
deliver peeked (some (address, bytes)) =
    if length bytes == peeked then some (address, bytes) else none

-- The new size of the buffer, and what the callback is called with, if it is.
unfoldable pub call : ℕ → Socket → ℕ × Option (SockaddrLl × List ℕ)
unfolding grow deliver
call size s = elim s.peek [
  | none ↦ (size, none)
  | some peeked ↦ (grow size peeked, deliver peeked (s.receive (grow size peeked)))
]
