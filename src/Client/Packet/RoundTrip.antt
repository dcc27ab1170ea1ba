-- ===== src/Client/Packet/RoundTrip.antt =====
-- Writing and reading back a packet of source/src/client.cc.
use link_layer_discovery.Base.{
  ℕ, ◌+◌, ◌*◌, ◌/◌, ◌%◌, ◌<◌, some, length, ◌≡◌, refl, arith, take-append_of_length,
}
use link_layer_discovery.Client.Packet.{
  Entry, end_of_data, chassis_entry, neighbour_entry, ip_entry, ipv6_entry, local_interface_entry,
  client_packet, read_data_packet, zeros,
}

-- The numbers fit their fields, and the arrays have their sizes.
abbrev pub FitsPacket : Entry → Type 0
FitsPacket end_of_data = Unit {0}
FitsPacket (chassis_entry e) =
    (e.chassis_id < 65536) × (e.name_length < 65536) × (length e.name ≡ 508)
FitsPacket (neighbour_entry e) =
    (e.chassis_id < 65536)
    × (e.neighbour_id < 65536)
    × (e.port_size < 65536)
    × (length e.neighbour_port ≡ 506)
FitsPacket (ip_entry e) = (e.neighbour_id < 65536) × (length e.address ≡ 4)
FitsPacket (ipv6_entry e) = (e.neighbour_id < 65536) × (length e.address ≡ 16)
FitsPacket (local_interface_entry e) =
    (e.neighbour_id < 65536) × (e.if_index < 4294967296) × (length e.name ≡ 16)

u16_read : (n : ℕ) → n < 65536 → n % 256 + n / 256 % 256 * 256 ≡ n
u16_read n h = omega arith

u32_read :
    (n : ℕ)
    → n < 4294967296
    → n % 256 + n / 256 % 256 * 256 + (n / 65536 % 256 + n / 16777216 % 256 * 256) * 65536 ≡ n
u32_read n h = omega arith

-- Where the numbers and arrays of an entry fit its packet, a client reads from the packet the entry
-- that it was made of.
pub read_data_packet-client_packet :
    (rid : ℕ) (e : Entry) → FitsPacket e → read_data_packet (client_packet rid e) ≡ some e
unfolding read_data_packet client_packet
read_data_packet-client_packet rid end_of_data h = refl
read_data_packet-client_packet rid (chassis_entry e) h =
    ground (arith, u16_read e.chassis_id h.0, u16_read e.name_length h.1)
read_data_packet-client_packet rid (neighbour_entry e) h =
    ground (arith, u16_read e.chassis_id h.0, u16_read e.neighbour_id h.1, u16_read e.port_size h.2)
read_data_packet-client_packet rid (ip_entry e) h =
    ground (arith, u16_read e.neighbour_id h.0, take-append_of_length 4 e.address (zeros 506) h.1)
read_data_packet-client_packet rid (ipv6_entry e) h =
    ground (arith, u16_read e.neighbour_id h.0, take-append_of_length 16 e.address (zeros 494) h.1)
read_data_packet-client_packet rid (local_interface_entry e) h = ground (
  arith,
  u16_read e.neighbour_id h.0,
  u32_read e.if_index h.1,
  take-append_of_length 16 e.name (zeros 490) h.2,
)
