-- ===== src/DeviceRepository/AddressDump.antt =====
-- The address reader's socket wakes up, source/src/netlink_monitor.cc, source/src/ip_reader.cc,
-- source/src/device_repository.cc and source/src/lldp_repository.cc together: from the bytes of the kernel to the
-- senders.
use link_layer_discovery.Base.{
  ℕ, ◌-◌, ◌^◌, ◌<◌, ◌≡◌, refl, subst, true, List, [], ◌∷◌, Option, none, some, arith, All, length,
}
use link_layer_discovery.Base.Map.{Map}
use link_layer_discovery.Device.{DeviceData}
use link_layer_discovery.Netlink.{Header, PacketView, addr_view, done_view}
use link_layer_discovery.Netlink.Reader.{handle_ip_packet, is_expected}
use link_layer_discovery.Netlink.Batch.{Queue, call}
use link_layer_discovery.Netlink.Batch.Delivery.{Holds}
use link_layer_discovery.Netlink.Batch.Addresses.{
  AddrMessage, AddrDump, DumpFits, dump_bytes, views_from, call-dump_bytes,
}
use link_layer_discovery.DeviceRepository.{
  World, handle_address_packet, ip_notice, ip_reader_finished, receive_ip_packet,
}
use link_layer_discovery.DeviceRepository.Batch.{with_devices}
use link_layer_discovery.DeviceRepository.Devices.{IsIndexed, handle_address_packet-Changes}
use link_layer_discovery.DeviceRepository.Sync.{IsSynced, receive_ip_packet-IsSynced}

-- The callback of the address reader's socket, once for each view.
unfoldable pub receive_each_ip : List PacketView → World → World
receive_each_ip [] w = w
receive_each_ip (v ∷ vs) w = receive_each_ip vs (receive_ip_packet v w)

after_ip_call : Option (List PacketView) → World → Option World
after_ip_call none w = none
after_ip_call (some vs) w = some (receive_each_ip vs w)

-- NetlinkSocket::Call of the address reader's socket.
unfoldable pub call_ip_socket : Queue → World → Option World
unfolding after_ip_call
call_ip_socket queue w = after_ip_call (call true queue) w

-- What the messages say of the devices, in order.
abbrev pub handle_addresses : List AddrMessage → Map ℕ DeviceData → Map ℕ DeviceData
handle_addresses [] devices = devices
handle_addresses (m ∷ ms) devices = handle_addresses ms (handle_address_packet m.view devices)

abbrev pub AnswersWith : ℕ → AddrMessage → Type 0
AnswersWith seq m = m.view.header.nlmsg_seq ≡ seq

receive_address :
    (seq : ℕ) (m : AddrMessage) (w : World)
    → AnswersWith seq m
    → w.local.ip_reader.dump_request_sequence_number ≡ some seq
    → receive_ip_packet (addr_view m.view) w
      ≡ with_devices (handle_address_packet m.view w.local.devices) w
unfolding receive_ip_packet handle_ip_packet is_expected ip_notice
receive_address seq m w answers waits =
    let expected : is_expected m.view.header w.local.ip_reader.dump_request_sequence_number ≡ true =
      ground (arith, answers, waits) in
    simp (expected) refl

-- What is left when the dump has been read.
pub record IsFinished (devices : Map ℕ DeviceData) (w : World) : Type 0 where
  pub same_devices : w.local.devices ≡ devices
  pub synced : IsSynced devices w.senders
  pub waits_no_more : w.local.ip_reader.dump_request_sequence_number ≡ none

receive_done_devices :
    (h : Header) (error : ℕ) (w : World)
    → is_expected h w.local.ip_reader.dump_request_sequence_number ≡ true
    → (receive_ip_packet (done_view h error) w).local.devices ≡ w.local.devices
unfolding receive_ip_packet handle_ip_packet ip_notice ip_reader_finished
receive_done_devices h error w expected = simp (expected) refl

receive_end :
    (seq error : ℕ) (h : Header) (w : World)
    → h.nlmsg_seq ≡ seq
    → w.local.ip_reader.dump_request_sequence_number ≡ some seq
    → IsIndexed w.local.devices
    → IsFinished w.local.devices (receive_ip_packet (done_view h error) w)
receive_end seq error h w answers waits v =
    let expected : is_expected h w.local.ip_reader.dump_request_sequence_number ≡ true =
      unfold is_expected in ground (arith, answers, waits) in
    let (synced, no_more) = receive_ip_packet-IsSynced h error w v expected in
    let same = receive_done_devices h error w expected in
    let after = receive_ip_packet (done_view h error) w in
    record {
      same_devices = same;
      synced = subst (λ devices. IsSynced devices after.senders) same synced;
      waits_no_more = no_more;
    }

receive_dump :
    (seq error : ℕ) (h : Header) (ms : List AddrMessage) (w : World)
    → All (AnswersWith seq) ms
    → h.nlmsg_seq ≡ seq
    → w.local.ip_reader.dump_request_sequence_number ≡ some seq
    → IsIndexed w.local.devices
    → IsFinished (handle_addresses ms w.local.devices) (receive_each_ip (views_from ms h error) w)
unfolding receive_each_ip
receive_dump seq error h [] w answers ends waits v = receive_end seq error h w ends waits v
receive_dump seq error h (m ∷ ms) w answers ends waits v =
    let devices = handle_address_packet m.view w.local.devices in
    let (changes, v') = handle_address_packet-Changes m.view w.local.devices v in
    rw (receive_each_ip, receive_address seq m w answers.0 waits)
      (receive_dump seq error h ms (with_devices devices w) answers.1 ends waits v')

-- Where the kernel answers the pending request for the addresses with one datagram of less than four gigabytes, and the
-- devices stand in order, each under its own index, the call is defined: the devices are those that the
-- messages say, in order, the senders are in step with them, and the reader waits for no dump.
pub call_ip_socket-dump_bytes :
    (seq : ℕ) (queue : Queue) (d : AddrDump) (w : World)
    → Holds queue 0 (dump_bytes d)
    → DumpFits d
    → length (dump_bytes d) < 2 ^ 32 - 4
    → All (AnswersWith seq) d.messages
    → d.ending.nlmsg_seq ≡ seq
    → w.local.ip_reader.dump_request_sequence_number ≡ some seq
    → IsIndexed w.local.devices
    → (w' : World) × (call_ip_socket queue w ≡ some w')
      × IsFinished (handle_addresses d.messages w.local.devices) w'
unfolding call_ip_socket
call_ip_socket-dump_bytes seq queue d w holds f small answers ends waits v = (
  receive_each_ip (views_from d.messages d.ending d.error) w,
  rw (call-dump_bytes queue d holds f small) refl,
  receive_dump seq d.error d.ending d.messages w answers ends waits v,
)
