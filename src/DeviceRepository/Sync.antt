-- ===== src/DeviceRepository/Sync.antt =====
-- The senders when a dump of the addresses ends, source/src/device_repository.cc.
use link_layer_discovery.Base.{ℕ, true, none, some, ◌≡◌, refl, has_value}
use link_layer_discovery.Base.Key.{nat_key}
use link_layer_discovery.Base.Map.{Map, lookup}
use link_layer_discovery.Device.{DeviceData}
use link_layer_discovery.Netlink.{Header, done_view}
use link_layer_discovery.Netlink.Reader.{handle_ip_packet, is_expected, reset_dump_attempt}
use link_layer_discovery.Repository.{Repository}
use link_layer_discovery.Repository.Contains.{contains, update_state-contains}
use link_layer_discovery.Repository.Synced.{HasSender, update_state-HasSender}
use link_layer_discovery.DeviceRepository.{World, ip_notice, ip_reader_finished, receive_ip_packet}
use link_layer_discovery.DeviceRepository.Devices.{IsIndexed}

-- The senders are those of the devices, and each has the name and the addresses of its device.
pub record IsSynced (devices : Map ℕ DeviceData) (r : Repository) : Type 0 where
  pub same : (q : ℕ) → contains q r ≡ has_value (lookup q devices)
  pub sender : (q : ℕ) (d : DeviceData) → lookup q devices ≡ some d → HasSender q d r

ip_reader_finished-IsSynced :
    (w : World)
    → IsIndexed w.local.devices
    → IsSynced w.local.devices (ip_reader_finished w).senders
unfolding ip_reader_finished
ip_reader_finished-IsSynced w v = record {
  same = λ q. update_state-contains w.local.devices q w.senders;
  sender = λ q d found. update_state-HasSender w.local.devices q d w.senders v.ascending found;
}

-- Where the devices stand in order, each under its own index, and the message that ends the requested
-- address dump arrives, the senders are brought in step with the devices, and the reader waits for no
-- dump.
pub receive_ip_packet-IsSynced :
    (h : Header) (error : ℕ) (w : World)
    → IsIndexed w.local.devices
    → is_expected h w.local.ip_reader.dump_request_sequence_number ≡ true
    → IsSynced
        (receive_ip_packet (done_view h error) w).local.devices
        (receive_ip_packet (done_view h error) w).senders
      × ((receive_ip_packet (done_view h error) w).local.ip_reader.dump_request_sequence_number
          ≡ none)
unfolding receive_ip_packet handle_ip_packet ip_notice
receive_ip_packet-IsSynced h error w v expected =
    let done = record w {
      local = record (w.local) { ip_reader = reset_dump_attempt w.local.ip_reader };
    } in
    simp (expected) (ip_reader_finished-IsSynced done v, refl)
