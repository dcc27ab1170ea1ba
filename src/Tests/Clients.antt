-- ===== src/Tests/Clients.antt =====
-- A dump to a client, and the timers of the local side.
use link_layer_discovery.Base.{ℕ, ◌<◌, [], ◌∷◌, none, some, ◌≡◌, refl, arith, true, false}
use link_layer_discovery.Base.Ints.{pos, negsuc}
use link_layer_discovery.Base.Key.{nat_key}
use link_layer_discovery.Base.Map.{Map, lookup}
use link_layer_discovery.Sender.{LldpSender}
use link_layer_discovery.Monitor.Neighbours.{NeighbourList}
use link_layer_discovery.Netlink.{Kernel, send_get_addr_message}
use link_layer_discovery.Netlink.Reader.{Reader, trigger_dump}
use link_layer_discovery.Netlink.Reader.Deadline.{wait, wait-trigger_dump}
use link_layer_discovery.DeviceRepository.{World}
use link_layer_discovery.DeviceRepository.Watchdog.{link_dumps, ticks, ticks_ask_again}
use link_layer_discovery.Client.Packet.{zeros}
use link_layer_discovery.Client.Dump.{dump_data}
use link_layer_discovery.Client.EndToEnd.{AreChassis}
use link_layer_discovery.Client.Sockets.{ClientSenderSocket}
use link_layer_discovery.Client.Transport.{ClientReceiverSocket}
use link_layer_discovery.Client.Overflow.{dump_data_large}
use link_layer_discovery.Tests.{host, sender, entry, neighbours}

abbrev pub device_info : Map ℕ LldpSender
device_info = (3, sender) ∷ []

pub neighbours_fit : AreChassis device_info neighbours
unfolding lookup
neighbours_fit = (
  omega arith,
  (
    record {
      port_fits = omega arith;
      index_fits = omega arith;
      name_fits = ground arith;
      ipv4_size = tt;
      ipv6_size = tt;
    },
    tt,
  ),
  tt,
)

abbrev client : ClientReceiverSocket
client = record { request_id = 1; requests = [] }

abbrev sender_socket : ClientSenderSocket
sender_socket = record { handler = 4; eof_received = false }

abbrev too_large : NeighbourList
too_large = (7 ∷ [], (zeros 507, entry) ∷ []) ∷ []

dump_data_large_example : dump_data device_info 1 too_large ≡ none
dump_data_large_example = dump_data_large device_info 1 too_large (ground arith)

abbrev reader : Reader
reader = record {
  reader_socket = record { is_valid = true; sequence_number = 1 };
  dump_request_sequence_number = none;
  dump_read_timeout = negsuc 0;
}

abbrev kernel : Kernel
kernel = record { pid = 1; sent = λ n. pos 32; requests = [] }

abbrev world : World
world = record {
  local = record {
    sync_timeout = pos 100;
    device_reader = reader;
    ip_reader = record reader { dump_request_sequence_number = some 2; dump_read_timeout = pos 5 };
    devices = [];
  };
  kernel = kernel;
  senders = ([], host);
}

wait-trigger_dump_example :
    (wait 5 (trigger_dump send_get_addr_message reader kernel).0).dump_request_sequence_number
    ≡ none
wait-trigger_dump_example = wait-trigger_dump send_get_addr_message reader kernel

ticks_ask_again_example : 0 < link_dumps (ticks 125 world).kernel.requests
ticks_ask_again_example = ticks_ask_again world refl (omega arith)
