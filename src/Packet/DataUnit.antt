-- ===== src/Packet/DataUnit.antt =====
-- LLDPDataUnit of source/src/lldp_packet.cc.
pub mod RoundTrip
pub mod Sound
use link_layer_discovery.Base.{
  ℕ, zero, suc, ◌+◌, Bool, List, [], ◌∷◌, ◌++◌, Option, none, some, length, ◌==◌, if◌then◌else◌,
  ◌>>=◌,
}
use link_layer_discovery.Lldp.{chassis_id_type, port_id_type, time_to_live_type, end_of_lldpdu}
use link_layer_discovery.Packet.Tlv
use link_layer_discovery.Packet.Tlv.{Tlv}

pub record DataUnit : Type 0 where
  pub chassis_id : Tlv
  pub port_id : Tlv
  pub time_to_live : Tlv
  pub optional_tlv : List Tlv

-- END_OF_DATA_UNIT_TLV
abbrev pub end_of_data_unit : List ℕ
end_of_data_unit = 0 ∷ 0 ∷ []

unfoldable pub sizes : List Tlv → ℕ
sizes [] = 0
sizes (t ∷ ts) = Tlv.get_frame_buffer_size t + sizes ts

pub get_frame_buffer_size : DataUnit → ℕ
get_frame_buffer_size d =
    Tlv.get_frame_buffer_size d.chassis_id
    + Tlv.get_frame_buffer_size d.port_id
    + Tlv.get_frame_buffer_size d.time_to_live
    + sizes d.optional_tlv
    + length end_of_data_unit

unfoldable pub write_all : List Tlv → List ℕ
write_all [] = []
write_all (t ∷ ts) = Tlv.to_frame_buffer t ++ write_all ts

pub to_frame_buffer : DataUnit → List ℕ
to_frame_buffer d =
    Tlv.to_frame_buffer d.chassis_id
    ++ (Tlv.to_frame_buffer d.port_id
        ++ (Tlv.to_frame_buffer d.time_to_live ++ (write_all d.optional_tlv ++ end_of_data_unit)))

-- One of the three mandatory TLVs: `FromSpan`, `has_value` and the test of the type.
read_mandatory : ℕ → List ℕ → Option (Tlv × List ℕ)
read_mandatory type bytes = do
  (t, rest) ← Tlv.from_span bytes
  if t.type == type then some (t, rest) else none

-- The `while` over the other TLVs: it ends where none can be read, or at an END_OF_LLDPDU. Each
-- round takes two bytes at least, so the length of the bytes is enough fuel.
unfoldable pub other_tlvs : ℕ → List ℕ → List Tlv
other_tlvs zero bytes = []
other_tlvs (suc fuel) bytes = elim (Tlv.from_span bytes) [
  | none ↦ []
  | some (t, rest) ↦
      let others = other_tlvs fuel rest in if t.type == end_of_lldpdu then [] else t ∷ others
]

unfoldable pub from_span : List ℕ → Option DataUnit
unfolding read_mandatory
from_span bytes = do
  (chassis, after_chassis) ← read_mandatory chassis_id_type bytes
  (port, after_port) ← read_mandatory port_id_type after_chassis
  (ttl, others) ← read_mandatory time_to_live_type after_port
  some (record {
    chassis_id = chassis;
    port_id = port;
    time_to_live = ttl;
    optional_tlv = other_tlvs (length others) others;
  })
