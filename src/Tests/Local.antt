-- ===== src/Tests/Local.antt =====
-- The local interfaces, and the clients.
use link_layer_discovery.Base.{ℕ, List, [], ◌∷◌, none, some, ◌≡◌, refl, arith, true, has_value}
use link_layer_discovery.Base.Ints.{pos, negsuc}
use link_layer_discovery.Base.Key.{nat_key}
use link_layer_discovery.Base.Map.{Map, lookup}
use link_layer_discovery.Device.{DeviceData}
use link_layer_discovery.Sender.Invariant.{IsBounded}
use link_layer_discovery.Repository.{Repository, update_state}
use link_layer_discovery.Repository.Contains.{contains, update_state-contains}
use link_layer_discovery.Repository.Synced.{HasSender, update_state-HasSender}
use link_layer_discovery.Repository.Bounded.{IsValid}
use link_layer_discovery.Netlink.{Header, LinkView, AddrView, done_view, link_view, addr_view}
use link_layer_discovery.Netlink.Reader.{Reader, is_expected}
use link_layer_discovery.DeviceRepository.{World, receive_ip_packet}
use link_layer_discovery.DeviceRepository.Devices.{IsIndexed}
use link_layer_discovery.DeviceRepository.Sync.{IsSynced, receive_ip_packet-IsSynced}
use link_layer_discovery.DeviceRepository.Run.{
  Event, device_packet, ip_packet, monitor_packet, clock, run,
}
use link_layer_discovery.DeviceRepository.Run.Kept.{IsCovered, Keeps, run-Keeps}
use link_layer_discovery.Client.Packet.{Entry, neighbour_entry, zeros}
use link_layer_discovery.Client.Packet.RoundTrip.{FitsPacket}
use link_layer_discovery.Tests.{eth0, host, sender}

abbrev pub known : Map ℕ DeviceData
known = (3, eth0) ∷ []

-- A repository with a sender that the new state does not name.
abbrev repository : Repository
repository = ((2, sender) ∷ [], host)

known_found : lookup 3 known ≡ some eth0
unfolding lookup
known_found = refl

sender_bounds : IsBounded (sender, host)
sender_bounds = record { credits = omega arith; fast = omega arith; timer = omega arith }

repository-IsValid : IsValid repository
unfolding lookup
repository-IsValid = record {
  ascending = (tt, tt);
  bounded = λ q s found. ground (arith, found, sender_bounds);
}

update_state-contains_example :
    contains 2 (update_state known repository) ≡ has_value (lookup 2 known)
update_state-contains_example = update_state-contains known 2 repository

update_state-HasSender_example : HasSender 3 eth0 (update_state known repository)
update_state-HasSender_example = update_state-HasSender known 3 eth0 repository (tt, tt) known_found

abbrev pub netlink_header : ℕ → ℕ → Header
netlink_header len type = record {
  nlmsg_len = len;
  nlmsg_type = type;
  nlmsg_flags = 2;
  nlmsg_seq = 2;
  nlmsg_pid = 1;
}

abbrev pub link : LinkView
link = record {
  header = netlink_header 40 16;
  ifi_type = 1;
  ifi_index = 3;
  ifi_flags = 65537;
  attributes = record { rta_type = 3; value = 101 ∷ 48 ∷ 0 ∷ [] } ∷ [];
}

abbrev pub addr : AddrView
addr = record {
  header = netlink_header 32 20;
  ifa_family = 2;
  ifa_flags = 0;
  ifa_index = 3;
  attributes = record { rta_type = 1; value = 10 ∷ 0 ∷ 0 ∷ 2 ∷ [] } ∷ [];
}

abbrev idle_reader : Reader
idle_reader = record {
  reader_socket = record { is_valid = true; sequence_number = 1 };
  dump_request_sequence_number = none;
  dump_read_timeout = negsuc 0;
}

abbrev pub waiting_reader : Reader
waiting_reader = record idle_reader {
  dump_request_sequence_number = some 2;
  dump_read_timeout = pos 5;
}

abbrev pub world : World
world = record {
  local = record {
    sync_timeout = pos 100;
    device_reader = idle_reader;
    ip_reader = waiting_reader;
    devices = known;
  };
  kernel = record { pid = 1; sent = λ n. pos 32; requests = [] };
  senders = ((3, sender) ∷ [], host);
}

pub known-IsIndexed : IsIndexed known
unfolding lookup
known-IsIndexed = record { ascending = (tt, tt); own_index = λ q d found. ground (arith, found) }

world-IsCovered : IsCovered world
unfolding lookup
world-IsCovered = record { indexed = known-IsIndexed; covered = λ q h. ground (arith, h) }

expected :
    is_expected (netlink_header 20 3) world.local.ip_reader.dump_request_sequence_number ≡ true
unfolding is_expected
expected = refl

receive_ip_packet-IsSynced_example :
    IsSynced
      (receive_ip_packet (done_view (netlink_header 20 3) 0) world).local.devices
      (receive_ip_packet (done_view (netlink_header 20 3) 0) world).senders
    × ((receive_ip_packet
          (done_view (netlink_header 20 3) 0)
          world).local.ip_reader.dump_request_sequence_number
        ≡ none)
receive_ip_packet-IsSynced_example =
    receive_ip_packet-IsSynced (netlink_header 20 3) 0 world known-IsIndexed expected

abbrev events : List Event
events =
    clock 1
    ∷ ip_packet (addr_view addr)
    ∷ device_packet (link_view link)
    ∷ clock 130
    ∷ monitor_packet (link_view link)
    ∷ clock 2
    ∷ []

run-Keeps_example : Keeps world (run events world)
run-Keeps_example = run-Keeps events world world-IsCovered

abbrev port_entry : Entry
port_entry =
    neighbour_entry
      (record { chassis_id = 0; neighbour_id = 1; port_size = 0; neighbour_port = zeros 506 })

port_entry_fits : FitsPacket port_entry
port_entry_fits = (omega arith, omega arith, omega arith, refl)
