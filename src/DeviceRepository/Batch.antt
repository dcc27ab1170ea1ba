-- ===== src/DeviceRepository/Batch.antt =====
-- The reader's socket wakes up, source/src/netlink_monitor.cc, source/src/device_reader.cc and
-- source/src/device_repository.cc together: the bytes of the kernel, and what becomes of the devices.
use link_layer_discovery.Base.{
  ℕ, ◌-◌, ◌^◌, ◌<◌, ◌≡◌, refl, ap, true, List, [], ◌∷◌, Option, none, some, arith, All, length,
}
use link_layer_discovery.Base.Map.{Map}
use link_layer_discovery.Device.{DeviceData}
use link_layer_discovery.Netlink.{PacketView, link_view}
use link_layer_discovery.Netlink.Reader.{handle_device_packet, is_expected}
use link_layer_discovery.Netlink.Batch.{Queue, call}
use link_layer_discovery.Netlink.Batch.Delivery.{Holds}
use link_layer_discovery.Netlink.Batch.Interfaces.{
  LinkMessage, MessageFits, datagram_of, views_of, call-datagram_of,
}
use link_layer_discovery.DeviceRepository.{
  World, handle_link_packet, device_notice, receive_device_packet,
}

-- The callback, once for each view.
unfoldable pub receive_each : List PacketView → World → World
receive_each [] w = w
receive_each (v ∷ vs) w = receive_each vs (receive_device_packet v w)

after_call : Option (List PacketView) → World → Option World
after_call none w = none
after_call (some vs) w = some (receive_each vs w)

-- NetlinkSocket::Call of the device reader's socket.
unfoldable pub call_device_socket : Queue → World → Option World
unfolding after_call
call_device_socket queue w = after_call (call true queue) w

abbrev pub with_devices : Map ℕ DeviceData → World → World
with_devices devices w = record w { local = record (w.local) { devices = devices } }

abbrev pub handle_each : List LinkMessage → Map ℕ DeviceData → Map ℕ DeviceData
handle_each [] devices = devices
handle_each (m ∷ ms) devices = handle_each ms (handle_link_packet m.view devices)

abbrev pub Answers : ℕ → LinkMessage → Type 0
Answers seq m = m.view.header.nlmsg_seq ≡ seq

pub receive_expected :
    (seq : ℕ) (m : LinkMessage) (w : World)
    → Answers seq m
    → w.local.device_reader.dump_request_sequence_number ≡ some seq
    → receive_device_packet (link_view m.view) w
      ≡ with_devices (handle_link_packet m.view w.local.devices) w
unfolding receive_device_packet handle_device_packet is_expected device_notice
receive_expected seq m w answers waits =
    let expected : is_expected m.view.header w.local.device_reader.dump_request_sequence_number
        ≡ true =
      ground (arith, answers, waits) in
    simp (expected) refl

receive_each-views_of :
    (seq : ℕ) (ms : List LinkMessage) (w : World)
    → All (Answers seq) ms
    → w.local.device_reader.dump_request_sequence_number ≡ some seq
    → receive_each (views_of ms) w ≡ with_devices (handle_each ms w.local.devices) w
unfolding receive_each
receive_each-views_of seq [] w answers waits = refl
receive_each-views_of seq (m ∷ ms) w answers waits =
    let w' = with_devices (handle_link_packet m.view w.local.devices) w in
    rw (receive_each, receive_expected seq m w answers.0 waits)
      (receive_each-views_of seq ms w' answers.1 waits)

-- Where the kernel answers the pending request for a dump with a datagram of messages about interfaces, of less than
-- four gigabytes, the call is defined, each message is handled once, in order, and nothing but the devices
-- is changed.
pub call_device_socket-datagram_of :
    (seq : ℕ) (queue : Queue) (ms : List LinkMessage) (w : World)
    → Holds queue 0 (datagram_of ms)
    → All MessageFits ms
    → length (datagram_of ms) < 2 ^ 32 - 4
    → All (Answers seq) ms
    → w.local.device_reader.dump_request_sequence_number ≡ some seq
    → call_device_socket queue w ≡ some (with_devices (handle_each ms w.local.devices) w)
unfolding call_device_socket
call_device_socket-datagram_of seq queue ms w holds h small answers waits =
    rw (call-datagram_of queue ms holds h small)
      (ap some (receive_each-views_of seq ms w answers waits))
