-- ===== src/Netlink/Batch.antt =====
-- NetlinkSocket::Call of source/src/netlink_monitor.cc, with recvNetlinkMessageBatch and
-- extractMessageFromBuffer. The socket is a parameter: what the two `recvmsg` calls answer.
pub mod Delivery
pub mod Interfaces
pub mod Addresses
pub mod LinkDump
use link_layer_discovery.Base.{
  ℕ, zero, suc, ◌-◌, Bool, true, false, ◌&&◌, List, [], ◌∷◌, ◌++◌, Option, none, some, length, take,
  drop, ltb, leb, ◌==◌, if◌then◌else◌,
}
use link_layer_discovery.Base.Ints.{ℤ, pos, negsuc}
use link_layer_discovery.Netlink.{PacketView}
use link_layer_discovery.Netlink.Fields.{read_field, align}
use link_layer_discovery.Netlink.Attributes.{header_size}
use link_layer_discovery.Netlink.Parse.{packet_view_parser}

-- The descriptor, the answer to `recvmsg(MSG_PEEK | MSG_TRUNC)`, and that to `recvmsg` with a buffer of a
-- size: the result, the `nl_pid` of the sender, and the bytes that were copied.
pub record Queue : Type 0 where
  pub is_valid : Bool
  pub peek : ℤ
  pub receive : ℕ → ℤ × ℕ × List ℕ

-- KERNEL_PID
abbrev pub kernel_pid : ℕ
kernel_pid = 0

-- `resize`: zero bytes are added at the end.
unfoldable pub grow : ℕ → List ℕ → List ℕ
grow zero buffer = buffer
grow (suc n) [] = 0 ∷ grow n []
grow (suc n) (b ∷ bs) = b ∷ grow n bs

-- The tests of the second `recvmsg`. The bytes are copied over the buffer's first ones.
check_batch : ℕ → List ℕ → ℤ × ℕ × List ℕ → List ℕ
check_batch peeked buffer (negsuc n, pid, bytes) = []
check_batch peeked buffer (pos n, pid, bytes) =
    if n == peeked && pid == kernel_pid then take n (bytes ++ drop (length bytes) buffer) else []

receive_batch : ℤ → Queue → List ℕ → List ℕ
receive_batch (negsuc n) queue buffer = []
receive_batch (pos zero) queue buffer = []
receive_batch (pos (suc n)) queue buffer =
    check_batch (suc n) (grow (suc n) buffer) (queue.receive (suc n))

-- recvNetlinkMessageBatch: the new content of the buffer.
unfoldable pub recv_netlink_message_batch : Queue → List ℕ → List ℕ
unfolding check_batch receive_batch
recv_netlink_message_batch queue buffer =
    if queue.is_valid then receive_batch queue.peek queue buffer else []

-- What extractMessageFromBuffer does: it takes a subspan past the end, finds no message, or returns one
-- and the data that remain.
pub data Extracted : Type 0 where
  past_end : Extracted
  no_message : Extracted
  message : List ℕ → List ℕ → Extracted

take_message : ℕ → List ℕ → Extracted
take_message size bytes =
    if ltb (length bytes) size then past_end else message (take size bytes) (drop size bytes)

check_message : List ℕ → Option (ℕ × List ℕ) → Extracted
check_message bytes none = no_message
check_message bytes (some (len, rest)) =
    if leb header_size len && leb len (length bytes)
    then take_message (align len) bytes
    else no_message

-- extractMessageFromBuffer: NLMSG_OK, and the aligned length.
unfoldable pub extract_message_from_buffer : List ℕ → Extracted
unfolding take_message check_message
extract_message_from_buffer bytes =
    if ltb (length bytes) header_size then no_message else check_message bytes (read_field 4 bytes)

-- The view goes to the callback before the next message is taken.
pub keep_view : Option PacketView → Option (List PacketView) → Option (List PacketView)
keep_view none others = none
keep_view (some v) none = none
keep_view (some v) (some vs) = some (v ∷ vs)

-- The loop of Call: the views that the callback gets, in order. `none` is undefined behaviour. Each round
-- takes a header at least, so one more than the number of bytes is enough fuel.
unfoldable pub deliver : ℕ → List ℕ → Option (List PacketView)
unfolding keep_view
deliver zero bytes = none
deliver (suc fuel) bytes = elim (extract_message_from_buffer bytes) [
  | past_end ↦ none
  | no_message ↦ some []
  | message m rest ↦ keep_view (packet_view_parser m) (deliver fuel rest)
]

abbrev pub deliver_all : List ℕ → Option (List PacketView)
deliver_all bytes = deliver (suc (length bytes)) bytes

-- NetlinkSocket::Call, with and without a callback.
unfoldable pub call : Bool → Queue → Option (List PacketView)
call has_callback queue =
    if has_callback then deliver_all (recv_netlink_message_batch queue []) else some []
