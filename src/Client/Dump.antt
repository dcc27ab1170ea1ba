-- ===== src/Client/Dump.antt =====
-- ClientSenderSocket::DumpData and its helpers, source/src/client.cc: the neighbours as entries. A
-- result `none` is a copy past the end of an array, which C++ leaves undefined.
use link_layer_discovery.Base.{
  ℕ, suc, ◌-◌, List, [], ◌∷◌, ◌++◌, map, Option, none, some, length, ltb, if◌then◌else◌, ◌>>=◌,
}
use link_layer_discovery.Base.Words.{u16}
use link_layer_discovery.Base.Key.{nat_key}
use link_layer_discovery.Base.Map.{Map, lookup}
use link_layer_discovery.Sender.{LldpSender}
use link_layer_discovery.Monitor.Entry
use link_layer_discovery.Monitor.Neighbours.{PortMap, NeighbourList}
use link_layer_discovery.Client.Packet.{
  ChassisEntry, NeighbourEntry, IpEntry, Ipv6Entry, LocalInterfaceEntry, end_of_data, chassis_entry,
  neighbour_entry, ip_entry, ipv6_entry, local_interface_entry, ClientPacket, client_packet, zeros,
}
use link_layer_discovery.Client.Packet

-- sendChassisEntryPacket
unfoldable pub chassis_entries : ℕ → List ℕ → List Packet.Entry
chassis_entries counter chassis_id =
    if ltb 508 (length chassis_id)
    then []
    else chassis_entry (record {
      chassis_id = counter;
      name_length = length chassis_id;
      name = chassis_id ++ zeros (508 - length chassis_id);
    })
      ∷ []

-- sendNeighbourEntry: the test on the size only prints.
unfoldable pub neighbour_entries : ℕ → ℕ → List ℕ → Option (List Packet.Entry)
neighbour_entries chassis_counter counter port_id =
    if ltb 506 (length port_id)
    then none
    else some (
        neighbour_entry (record {
          chassis_id = chassis_counter;
          neighbour_id = counter;
          port_size = length port_id;
          neighbour_port = port_id ++ zeros (506 - length port_id);
        })
        ∷ [])

-- What GetDeviceInfo knows of an interface's name.
abbrev pub name_of : Option LldpSender → Option (List ℕ)
name_of none = none
name_of (some s) = s.device_data.interface_name

-- sendLocalInterfaceEntry: without a sender or a name it only prints; IF_NAMESIZE is 16.
unfoldable pub local_interface_entries : ℕ → ℕ → Option (List ℕ) → Option (List Packet.Entry)
local_interface_entries counter index none = some []
local_interface_entries counter index (some name) =
    if ltb 16 (length name)
    then none
    else some (
        local_interface_entry (record {
          neighbour_id = counter;
          if_index = index;
          name = name ++ zeros (16 - length name);
        })
        ∷ [])

unfoldable pub ip_entries : ℕ → Option (List ℕ) → List Packet.Entry
ip_entries counter none = []
ip_entries counter (some a) = ip_entry (record { neighbour_id = counter; address = a }) ∷ []

unfoldable pub ipv6_entries : ℕ → Option (List ℕ) → List Packet.Entry
ipv6_entries counter none = []
ipv6_entries counter (some a) = ipv6_entry (record { neighbour_id = counter; address = a }) ∷ []

-- The body of the inner loop.
unfoldable pub dump_neighbour :
    Map ℕ LldpSender → ℕ → ℕ → List ℕ → Entry.NeighbourEntry → Option (List Packet.Entry)
dump_neighbour device_info chassis_counter counter port_id e = do
  ports ← neighbour_entries chassis_counter counter port_id
  interfaces ←
      local_interface_entries counter e.interface_index
        (name_of (lookup e.interface_index device_info))
  some (
      ports
      ++ (interfaces ++ (ip_entries counter e.ipv4_address ++ ipv6_entries counter e.ipv6_address)))

-- The inner loop, which returns the counter too.
unfoldable pub dump_ports : Map ℕ LldpSender → ℕ → ℕ → PortMap → Option (List Packet.Entry × ℕ)
dump_ports device_info chassis_counter counter [] = some ([], counter)
dump_ports device_info chassis_counter counter ((port_id, e) ∷ ports) = do
  first ← dump_neighbour device_info chassis_counter counter port_id e
  (rest, last) ← dump_ports device_info chassis_counter (u16 (suc counter)) ports
  some (first ++ rest, last)

-- The outer loop.
unfoldable pub dump_chassis : Map ℕ LldpSender → ℕ → ℕ → NeighbourList → Option (List Packet.Entry)
dump_chassis device_info chassis_counter counter [] = some []
dump_chassis device_info chassis_counter counter ((chassis_id, ports) ∷ chassis) = do
  (first, next) ← dump_ports device_info chassis_counter counter ports
  rest ← dump_chassis device_info (u16 (suc chassis_counter)) next chassis
  some (chassis_entries chassis_counter chassis_id ++ (first ++ rest))

-- DumpData: the packets that are sent, one for each entry, and the end.
unfoldable pub dump_data : Map ℕ LldpSender → ℕ → NeighbourList → Option (List ClientPacket)
dump_data device_info request_id neighbours = do
  entries ← dump_chassis device_info 0 0 neighbours
  some (map (client_packet request_id) (entries ++ end_of_data ∷ []))
