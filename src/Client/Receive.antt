-- ===== src/Client/Receive.antt =====
-- ClientReceiverSocket::GetData and processDataPacket, source/src/client.cc. A result `none` of GetData says that it does
-- not return: a range is past the end of an array, which C++ leaves undefined, or `recvmsg` waits for a packet.
use link_layer_discovery.Base.{
  ℕ, zero, suc, List, [], ◌∷◌, ◌++◌, Option, none, some, take, ltb, ◌==◌, if◌then◌else◌,
}
use link_layer_discovery.Base.Key.{nat_key}
use link_layer_discovery.Base.Map.{Map, lookup, insert}
use link_layer_discovery.Client.Packet.{
  Entry, end_of_data, chassis_entry, neighbour_entry, ip_entry, ipv6_entry, local_interface_entry,
  ClientPacket, read_data_packet, zeros,
}

pub record NeighbourDeviceData : Type 0 where
  pub chassis : List ℕ
  pub port : List ℕ
  pub local_interface_name : Option (List ℕ)
  pub ipv4_address : Option (List ℕ)
  pub ipv6_address : Option (List ℕ)

-- `chassis_map` and `neighbour_device_map`.
pub record Tables : Type 0 where
  pub chassis_map : Map ℕ (List ℕ)
  pub neighbour_device_map : Map ℕ NeighbourDeviceData

-- What `map[key]` makes of a missing key, in each of the two maps.
abbrev pub chassis_or_new : Option (List ℕ) → List ℕ
chassis_or_new none = []
chassis_or_new (some name) = name

abbrev pub neighbour_or_new : Option NeighbourDeviceData → NeighbourDeviceData
neighbour_or_new none = record {
  chassis = [];
  port = [];
  local_interface_name = none;
  ipv4_address = none;
  ipv6_address = none;
}
neighbour_or_new (some d) = d

-- `neighbour_device_map[key]`, which the caller changes in place.
unfoldable pub change_neighbour : ℕ → (NeighbourDeviceData → NeighbourDeviceData) → Tables → Tables
change_neighbour key f t = record t {
  neighbour_device_map =
      insert key (f (neighbour_or_new (lookup key t.neighbour_device_map))) t.neighbour_device_map;
}

-- `chassis_map[key]`, read: a missing key is there afterwards.
unfoldable pub touch_chassis : ℕ → Option (List ℕ) → Map ℕ (List ℕ) → Map ℕ (List ℕ)
touch_chassis key none m = insert key [] m
touch_chassis key (some name) m = m

-- The bytes before the first 0.
unfoldable pub until_nul : List ℕ → List ℕ
until_nul [] = []
until_nul (b ∷ l) = if b == 0 then [] else b ∷ until_nul l

-- What becomes of an entry: the program may not go on, the loop ends, or it goes on.
pub data Step : Type 0 where
  undefined : Step
  stop : Step
  next : Tables → Step

-- processDataPacket. The name of an interface runs into the padding of its packet.
unfoldable pub process_data_packet : Tables → Entry → Step
process_data_packet t end_of_data = stop
process_data_packet t (chassis_entry e) =
    if ltb 508 e.name_length
    then undefined
    else next
        (record t { chassis_map = insert e.chassis_id (take e.name_length e.name) t.chassis_map })
process_data_packet t (neighbour_entry e) =
    if ltb 506 e.port_size
    then undefined
    else next (record {
      chassis_map = touch_chassis e.chassis_id (lookup e.chassis_id t.chassis_map) t.chassis_map;
      neighbour_device_map =
          insert e.neighbour_id
            (record {
              chassis = chassis_or_new (lookup e.chassis_id t.chassis_map);
              port = take e.port_size e.neighbour_port;
              local_interface_name = none;
              ipv4_address = none;
              ipv6_address = none;
            })
            t.neighbour_device_map;
    })
process_data_packet t (ip_entry e) =
    next (change_neighbour e.neighbour_id (λ d. record d { ipv4_address = some e.address }) t)
process_data_packet t (ipv6_entry e) =
    next (change_neighbour e.neighbour_id (λ d. record d { ipv6_address = some e.address }) t)
process_data_packet t (local_interface_entry e) = next (
    change_neighbour e.neighbour_id
      (λ d. record d { local_interface_name = some (until_nul (e.name ++ zeros 490)) }) t)

-- What one `recvmsg` gives: a packet, or an error.
pub data Reading : Type 0 where
  packet : ClientPacket → Reading
  failed : ℕ → Reading

-- readDataPacket and processDataPacket, in the loop: EAGAIN is 11, and the other errors end it.
unfoldable pub process_reading : Tables → Reading → Step
process_reading t (failed err) = if err == 11 then next t else stop
process_reading t (packet p) = elim (read_data_packet p) [
  | none ↦ stop
  | some e ↦ process_data_packet t e
]

-- The loop of GetData: at most so many readings. Where no further one comes, `recvmsg` blocks.
unfoldable pub get_data_from : ℕ → List Reading → Tables → Option (Map ℕ NeighbourDeviceData)
get_data_from zero readings t = some t.neighbour_device_map
get_data_from (suc n) [] t = none
get_data_from (suc n) (r ∷ readings) t = elim (process_reading t r) [
  | undefined ↦ none
  | stop ↦ some t.neighbour_device_map
  | next t' ↦ get_data_from n readings t'
]

-- MAX_DATA_TRANSPORT_PACKET_AMOUNT
abbrev pub max_data_transport_packet_amount : ℕ
max_data_transport_packet_amount = 100000

-- GetData
abbrev pub get_data : List Reading → Option (Map ℕ NeighbourDeviceData)
get_data readings =
    get_data_from max_data_transport_packet_amount readings
      (record { chassis_map = []; neighbour_device_map = [] })
