-- ===== src/Tests/Wire.antt =====
-- Packets and the monitor.
use link_layer_discovery.Base.{
  ℕ, ◌≤◌, ◌<◌, List, [], ◌∷◌, ◌++◌, none, some, ◌≡◌, refl, arith, All, length, take, if◌then◌else◌,
  ◌&&◌,
}
use link_layer_discovery.Base.Words.{IsByte, u16}
use link_layer_discovery.Base.Key.{bytes_beq}
use link_layer_discovery.Packet.Tlv
use link_layer_discovery.Packet.Tlv.{Tlv}
use link_layer_discovery.Packet.Tlv.RoundTrip.{IsEncodable, from_span-IsEncodable}
use link_layer_discovery.Packet.DataUnit
use link_layer_discovery.Packet.DataUnit.RoundTrip.{IsWellFormed, from_span-to_frame_buffer_unit}
use link_layer_discovery.Packet.DataUnit.Sound.{from_span-IsWellFormed}
use link_layer_discovery.Monitor.Entry.{NeighbourEntry, ttl_of, lldpdu_to_neighbour_entry, collect}
use link_layer_discovery.Monitor.Neighbours.{NeighbourList, store, tick}
use link_layer_discovery.Monitor.Neighbours.Lookup.{neighbour, IsValid}
use link_layer_discovery.Monitor.Neighbours.Tick.{survive, neighbour-tick}
use link_layer_discovery.Monitor.Frames.{lldp_frame_parser, read_frame, entry_outcome}
use link_layer_discovery.Monitor.Frames.Stored.{
  IsLldpAddress, neighbour-lldp_frame_parser, lldp_frame_parser_undefined,
}
use link_layer_discovery.Monitor.Socket.{Socket, call}
use link_layer_discovery.Monitor.Socket.Delivery.{Holds, call_buffer}
use link_layer_discovery.Client.Packet.{zeros}
use link_layer_discovery.Tests.{
  address, data_unit, unit_bytes, short_unit, short_bytes, entry, neighbours,
}

abbrev name_tlv : Tlv
name_tlv = record { type = 5; value = 104 ∷ [] }

address_accepted : IsLldpAddress address
address_accepted = record { family = refl; protocol = refl; hatype = refl; halen = refl }

unit_read : DataUnit.from_span unit_bytes ≡ some data_unit
unfolding DataUnit.from_span DataUnit.other_tlvs Tlv.from_span
unit_read = refl

short_frame : DataUnit.from_span (2 ∷ []) ≡ none
unfolding DataUnit.from_span DataUnit.other_tlvs Tlv.from_span
short_frame = refl

frame_parsed :
    lldp_frame_parser neighbours address unit_bytes
    ≡ some (store neighbours (7 ∷ 97 ∷ []) (7 ∷ 49 ∷ []) entry)
unfolding lldp_frame_parser read_frame entry_outcome lldpdu_to_neighbour_entry collect
    DataUnit.from_span DataUnit.other_tlvs Tlv.from_span
frame_parsed = refl

short_read : DataUnit.from_span short_bytes ≡ some short_unit
unfolding DataUnit.from_span DataUnit.other_tlvs Tlv.from_span
short_read = refl

abbrev tlv_bytes : List ℕ
tlv_bytes = 10 ∷ 1 ∷ 104 ∷ 9 ∷ []

name_read : Tlv.from_span tlv_bytes ≡ some (name_tlv, 9 ∷ [])
unfolding Tlv.from_span
name_read = refl

tlv_bytes-IsByte : All IsByte tlv_bytes
tlv_bytes-IsByte = ground arith

unit_bytes-IsByte : All IsByte unit_bytes
unit_bytes-IsByte = ground arith

data_unit-IsWellFormed : IsWellFormed data_unit
data_unit-IsWellFormed = record {
  chassis_encodable = record { type_fits = omega arith; value_fits = omega arith };
  chassis_type = refl;
  port_encodable = record { type_fits = omega arith; value_fits = omega arith };
  port_type = refl;
  ttl_encodable = record { type_fits = omega arith; value_fits = omega arith };
  ttl_type = refl;
  others_optional = ground arith;
}

neighbours-IsValid : IsValid neighbours
neighbours-IsValid = record { ascending = (tt, tt); each = ((tt, tt), refl, tt) }

from_span-to_frame_buffer_unit_example :
    DataUnit.from_span (DataUnit.to_frame_buffer data_unit ++ (0 ∷ 0 ∷ 0 ∷ [])) ≡ some data_unit
from_span-to_frame_buffer_unit_example =
    from_span-to_frame_buffer_unit data_unit (0 ∷ 0 ∷ 0 ∷ []) data_unit-IsWellFormed

from_span-IsWellFormed_example :
    (rest : List ℕ) × IsWellFormed data_unit
    × (unit_bytes
        ≡ Tlv.to_frame_buffer data_unit.chassis_id
          ++ (Tlv.to_frame_buffer data_unit.port_id
              ++ (Tlv.to_frame_buffer data_unit.time_to_live
                  ++ (DataUnit.write_all data_unit.optional_tlv ++ rest))))
from_span-IsWellFormed_example = from_span-IsWellFormed unit_bytes unit_bytes-IsByte unit_read

from_span-IsEncodable_example : IsEncodable name_tlv
from_span-IsEncodable_example = from_span-IsEncodable tlv_bytes tlv_bytes-IsByte name_read

neighbour-tick_example :
    neighbour (tick neighbours 10) (7 ∷ 97 ∷ []) (7 ∷ 49 ∷ [])
    ≡ survive 10 (neighbour neighbours (7 ∷ 97 ∷ []) (7 ∷ 49 ∷ []))
neighbour-tick_example = neighbour-tick neighbours 10 (7 ∷ 97 ∷ []) (7 ∷ 49 ∷ []) neighbours-IsValid

neighbour-lldp_frame_parser_example :
    (m' : NeighbourList) × (e : NeighbourEntry) × (lldp_frame_parser neighbours address unit_bytes
      ≡ some m')
    × (ttl_of data_unit.time_to_live.value ≡ some e.time_to_live)
    × (e.interface_index ≡ u16 3)
    × (neighbour m' (7 ∷ 97 ∷ []) (9 ∷ []) ≡ (
        if bytes_beq (7 ∷ 97 ∷ []) (7 ∷ 97 ∷ []) && bytes_beq (9 ∷ []) (7 ∷ 49 ∷ [])
        then some e
        else neighbour neighbours (7 ∷ 97 ∷ []) (9 ∷ [])))
neighbour-lldp_frame_parser_example =
    neighbour-lldp_frame_parser neighbours address unit_bytes data_unit (7 ∷ 97 ∷ []) (9 ∷ [])
      address_accepted unit_read (omega arith)

lldp_frame_parser_undefined_example : lldp_frame_parser neighbours address short_bytes ≡ none
lldp_frame_parser_undefined_example =
    lldp_frame_parser_undefined neighbours address short_bytes short_unit address_accepted
      short_read (omega arith)

abbrev queue : List ℕ → Socket
queue datagram = record {
  peek = some (length datagram);
  receive = λ size. some (address, take size datagram);
}

queue-Holds : (datagram : List ℕ) → Holds (queue datagram) address datagram
queue-Holds datagram = record { peeks = refl; receives = λ size. refl }

call_buffer_example : ((call 2 (queue unit_bytes)).0 ≤ 1600) × (2 ≤ (call 2 (queue unit_bytes)).0)
call_buffer_example = call_buffer 2 (queue unit_bytes) (omega arith)

long_datagram : 1600 < length (zeros 1601)
long_datagram = omega arith
