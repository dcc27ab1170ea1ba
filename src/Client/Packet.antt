-- ===== src/Client/Packet.antt =====
-- The structs of source/include/client.hh, and the packet that carries one of them.
pub mod RoundTrip
use link_layer_discovery.Base.{
  ℕ, zero, suc, ◌+◌, ◌*◌, ◌/◌, ◌%◌, List, [], ◌∷◌, ◌++◌, Option, none, some, take, drop, ◌==◌,
  if◌then◌else◌,
}

-- `n` zero bytes.
abbrev pub zeros : ℕ → List ℕ
zeros zero = []
zeros (suc n) = 0 ∷ zeros n

pub record ChassisEntry : Type 0 where
  pub chassis_id : ℕ
  pub name_length : ℕ
  pub name : List ℕ  -- 508 bytes

pub record NeighbourEntry : Type 0 where
  pub chassis_id : ℕ
  pub neighbour_id : ℕ
  pub port_size : ℕ
  pub neighbour_port : List ℕ  -- 506 bytes

pub record IpEntry : Type 0 where
  pub neighbour_id : ℕ
  pub address : List ℕ  -- 4 bytes

pub record Ipv6Entry : Type 0 where
  pub neighbour_id : ℕ
  pub address : List ℕ  -- 16 bytes

pub record LocalInterfaceEntry : Type 0 where
  pub neighbour_id : ℕ
  pub if_index : ℕ  -- unsigned int
  pub name : List ℕ  -- 16 bytes

-- What a packet carries.
pub data Entry : Type 0 where
  end_of_data : Entry
  chassis_entry : ChassisEntry → Entry
  neighbour_entry : NeighbourEntry → Entry
  ip_entry : IpEntry → Entry
  ipv6_entry : Ipv6Entry → Entry
  local_interface_entry : LocalInterfaceEntry → Entry

-- ClientPacket, whose `data` are 512 bytes.
pub record ClientPacket : Type 0 where
  pub request_id : ℕ
  pub type : ℕ
  pub data_bytes : List ℕ

-- A word in memory, on a little-endian machine: both ends of the socket are on one machine.
abbrev pub u16_bytes : ℕ → List ℕ
u16_bytes n = n % 256 ∷ n / 256 % 256 ∷ []

abbrev pub u32_bytes : ℕ → List ℕ
u32_bytes n = n % 256 ∷ n / 256 % 256 ∷ n / 65536 % 256 ∷ n / 16777216 % 256 ∷ []

abbrev pub read_u16 : List ℕ → ℕ
read_u16 [] = 0
read_u16 (a ∷ []) = a
read_u16 (a ∷ b ∷ l) = a + b * 256

abbrev pub read_u32 : List ℕ → ℕ
read_u32 l = read_u16 l + read_u16 (drop 2 l) * 65536

-- The constructors of ClientPacket; the default one makes the end of the data.
unfoldable pub client_packet : ℕ → Entry → ClientPacket
client_packet rid end_of_data = record { request_id = 0; type = 0; data_bytes = zeros 512 }
client_packet rid (chassis_entry e) = record {
  request_id = rid;
  type = 1;
  data_bytes = u16_bytes e.chassis_id ++ u16_bytes e.name_length ++ e.name;
}
client_packet rid (neighbour_entry e) = record {
  request_id = rid;
  type = 2;
  data_bytes =
      u16_bytes e.chassis_id
      ++ u16_bytes e.neighbour_id
      ++ u16_bytes e.port_size
      ++ e.neighbour_port;
}
client_packet rid (ip_entry e) = record {
  request_id = rid;
  type = 3;
  data_bytes = u16_bytes e.neighbour_id ++ e.address ++ zeros 506;
}
client_packet rid (ipv6_entry e) = record {
  request_id = rid;
  type = 4;
  data_bytes = u16_bytes e.neighbour_id ++ e.address ++ zeros 494;
}
client_packet rid (local_interface_entry e) = record {
  request_id = rid;
  type = 5;
  data_bytes = u16_bytes e.neighbour_id ++ u32_bytes e.if_index ++ e.name ++ zeros 490;
}

-- The `bit_cast`s.
as_chassis : List ℕ → Entry
as_chassis d =
    chassis_entry
      (record { chassis_id = read_u16 d; name_length = read_u16 (drop 2 d); name = drop 4 d })

as_neighbour : List ℕ → Entry
as_neighbour d = neighbour_entry (record {
  chassis_id = read_u16 d;
  neighbour_id = read_u16 (drop 2 d);
  port_size = read_u16 (drop 4 d);
  neighbour_port = drop 6 d;
})

as_ip : List ℕ → Entry
as_ip d = ip_entry (record { neighbour_id = read_u16 d; address = take 4 (drop 2 d) })

as_ipv6 : List ℕ → Entry
as_ipv6 d = ipv6_entry (record { neighbour_id = read_u16 d; address = take 16 (drop 2 d) })

as_local_interface : List ℕ → Entry
as_local_interface d = local_interface_entry (record {
  neighbour_id = read_u16 d;
  if_index = read_u32 (drop 2 d);
  name = take 16 (drop 6 d);
})

-- readDataPacket, where a packet was received: `none` is the error 0.
unfoldable pub read_data_packet : ClientPacket → Option Entry
unfolding as_chassis as_neighbour as_ip as_ipv6 as_local_interface
read_data_packet p =
    if p.type == 0
    then some end_of_data
    else if p.type == 1
    then some (as_chassis p.data_bytes)
    else if p.type == 2
    then some (as_neighbour p.data_bytes)
    else if p.type == 3
    then some (as_ip p.data_bytes)
    else if p.type == 4
    then some (as_ipv6 p.data_bytes)
    else if p.type == 5
    then some (as_local_interface p.data_bytes)
    else none
