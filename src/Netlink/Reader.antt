-- ===== src/Netlink/Reader.antt =====
-- DeviceReader and IpReader, source/src/device_reader.cc and source/src/ip_reader.cc: one dump at a time,
-- with a deadline. The callbacks are the last thing that a method does, so a method returns which
-- callback it made.
pub mod Deadline
pub mod Wiring
use link_layer_discovery.Base.{ℕ, Bool, false, Option, none, some, ◌==◌, if◌then◌else◌}
use link_layer_discovery.Base.Ints.{ℤ, pos, negsuc, ltb_int, minus, as_int}
use link_layer_discovery.Netlink.{
  NetlinkSocket, Kernel, value, unexpected, Answer, Header, LinkView, AddrView, PacketView,
  message_view, link_view, addr_view, error_view, done_view, header_of, send_get_link_dump_message,
  send_get_addr_message,
}

pub record Reader : Type 0 where
  pub reader_socket : NetlinkSocket
  pub dump_request_sequence_number : Option ℕ
  pub dump_read_timeout : ℤ

-- DUMP_READ_TIMEOUT
abbrev pub dump_read_limit : ℕ
dump_read_limit = 5

-- The callbacks: none, an update, the end of the dump, an error.
pub data Notice : Type 0 where
  silent : Notice
  device_update : LinkView → Notice
  address_update : AddrView → Notice
  end_of_dump : Notice
  dump_errored : Notice

-- ResetDumpAttempt
abbrev pub reset_dump_attempt : Reader → Reader
reset_dump_attempt r = record r {
  dump_read_timeout = negsuc 0;
  dump_request_sequence_number = none;
}

tick_pending : ℕ → Option ℕ → Reader → Reader × Notice
tick_pending delta none r = (r, silent)
tick_pending delta (some seq) r =
    if ltb_int (as_int delta) r.dump_read_timeout
    then (record r { dump_read_timeout = minus r.dump_read_timeout (as_int delta) }, silent)
    else (reset_dump_attempt r, dump_errored)

-- Tick
unfoldable pub tick : ℕ → Reader → Reader × Notice
unfolding tick_pending
tick delta r = tick_pending delta r.dump_request_sequence_number r

after_send : Answer → Reader → Reader × Kernel
after_send (value seq, socket, kernel) r =
    (record r { reader_socket = socket; dump_request_sequence_number = some seq }, kernel)
after_send (unexpected e, socket, kernel) r = (record r { reader_socket = socket }, kernel)

-- TriggerDump, where the socket is there; the caller only prints the error.
unfoldable pub trigger_dump : (NetlinkSocket → Kernel → Answer) → Reader → Kernel → Reader × Kernel
unfolding after_send
trigger_dump send r kernel =
    after_send (send r.reader_socket kernel) (record r { dump_read_timeout = pos dump_read_limit })

abbrev pub trigger_device_dump : Reader → Kernel → Reader × Kernel
trigger_device_dump r kernel = trigger_dump send_get_link_dump_message r kernel

abbrev pub trigger_ip_dump : Reader → Kernel → Reader × Kernel
trigger_ip_dump r kernel = trigger_dump send_get_addr_message r kernel

-- The guards at the head of HandleNetlinkPacket.
unfoldable pub is_expected : Header → Option ℕ → Bool
is_expected h none = false
is_expected h (some seq) = h.nlmsg_seq == seq

take_device_packet : PacketView → Reader → Reader × Notice
take_device_packet (link_view v) r = (r, device_update v)
take_device_packet (done_view h error) r = (reset_dump_attempt r, end_of_dump)
take_device_packet (error_view h content) r = (reset_dump_attempt r, dump_errored)
take_device_packet (addr_view v) r = (r, silent)
take_device_packet (message_view h content) r = (r, silent)

take_ip_packet : PacketView → Reader → Reader × Notice
take_ip_packet (addr_view v) r = (r, address_update v)
take_ip_packet (done_view h error) r = (reset_dump_attempt r, end_of_dump)
take_ip_packet (error_view h content) r = (reset_dump_attempt r, dump_errored)
take_ip_packet (link_view v) r = (r, silent)
take_ip_packet (message_view h content) r = (r, silent)

-- DeviceReader::HandleNetlinkPacket
unfoldable pub handle_device_packet : PacketView → Reader → Reader × Notice
unfolding take_device_packet
handle_device_packet p r =
    if is_expected (header_of p) r.dump_request_sequence_number
    then take_device_packet p r
    else (r, silent)

-- IpReader::HandleNetlinkPacket
unfoldable pub handle_ip_packet : PacketView → Reader → Reader × Notice
unfolding take_ip_packet
handle_ip_packet p r =
    if is_expected (header_of p) r.dump_request_sequence_number
    then take_ip_packet p r
    else (r, silent)
