-- ===== src/Tests.antt =====
-- The theorems on concrete inputs: the data that the tests share.
mod Wire
mod Sending
mod Local
mod Clients
mod Serving
mod Packets
mod Dumps
mod Hosting
mod Startup
mod Starting
mod Printing
use link_layer_discovery.Base.{ℕ, List, [], ◌∷◌, Option, none, some, true, false}
use link_layer_discovery.Device.{DeviceData}
use link_layer_discovery.Packet.Tlv.{Tlv}
use link_layer_discovery.Packet.DataUnit.{DataUnit}
use link_layer_discovery.Monitor.Frames.{SockaddrLl}
use link_layer_discovery.Monitor.Entry.{NeighbourEntry}
use link_layer_discovery.Monitor.Neighbours.{NeighbourList}
use link_layer_discovery.Sender.{LldpSender, Host, sent}

-- An interface that is up.
abbrev pub eth0 : DeviceData
eth0 = record {
  mac_address = some (2 ∷ 0 ∷ 0 ∷ 0 ∷ 0 ∷ 1 ∷ []);
  ipv4_address = some (10 ∷ 0 ∷ 0 ∷ 1 ∷ []);
  ipv6_address = none;
  interface_name = some (101 ∷ 48 ∷ []);
  device_operational = true;
  if_index = 3;
}

-- The same one, down.
abbrev pub eth0_down : DeviceData
eth0_down = record eth0 { device_operational = false }

abbrev pub host : Host
host = record {
  machine_id = λ n. 97 ∷ 98 ∷ [];
  machine_id_vector = [];
  gone = λ n l. l;
  reply = λ n. sent;
  log = [];
}

abbrev pub sender : LldpSender
sender = record {
  device_data = eth0;
  transmit_timer = 2;
  transmit_credits = 1;
  fast_forward_counter = 0;
  trigger_ready = false;
}

abbrev pub address : SockaddrLl
address = record {
  sll_family = 17;
  sll_protocol = 0x88cc;
  sll_ifindex = 3;
  sll_hatype = 1;
  sll_halen = 6;
}

abbrev pub data_unit : DataUnit
data_unit = record {
  chassis_id = record { type = 1; value = 7 ∷ 97 ∷ [] };
  port_id = record { type = 2; value = 7 ∷ 49 ∷ [] };
  time_to_live = record { type = 3; value = 0 ∷ 30 ∷ [] };
  optional_tlv = record { type = 5; value = 104 ∷ [] } ∷ [];
}

abbrev pub unit_bytes : List ℕ
unit_bytes = 2 ∷ 2 ∷ 7 ∷ 97 ∷ 4 ∷ 2 ∷ 7 ∷ 49 ∷ 6 ∷ 2 ∷ 0 ∷ 30 ∷ 10 ∷ 1 ∷ 104 ∷ 0 ∷ 0 ∷ []

-- A unit whose time to live has one byte.
abbrev pub short_unit : DataUnit
short_unit = record data_unit {
  time_to_live = record { type = 3; value = 30 ∷ [] };
  optional_tlv = [];
}

abbrev pub short_bytes : List ℕ
short_bytes = 2 ∷ 2 ∷ 7 ∷ 97 ∷ 4 ∷ 2 ∷ 7 ∷ 49 ∷ 6 ∷ 1 ∷ 30 ∷ 0 ∷ 0 ∷ []

abbrev pub entry : NeighbourEntry
entry = record {
  chassis_id = 7 ∷ 97 ∷ [];
  port_id = 7 ∷ 49 ∷ [];
  interface_index = 3;
  time_to_live = 30;
  ipv4_address = none;
  ipv6_address = none;
}

abbrev pub neighbours : NeighbourList
neighbours = (7 ∷ 97 ∷ [], (7 ∷ 49 ∷ [], entry) ∷ []) ∷ []
