-- ===== src/Packet/Frame.antt =====
-- LLDPEthernetFrame of source/src/lldp_packet.cc. `ether_header` has the two addresses and the type,
-- which stands in network byte order.
use link_layer_discovery.Base.{ℕ, ◌+◌, List, ◌++◌}
use link_layer_discovery.Base.Words.{htons}
use link_layer_discovery.Packet.DataUnit
use link_layer_discovery.Packet.DataUnit.{DataUnit}

pub record EtherHeader : Type 0 where
  pub ether_dhost : List ℕ
  pub ether_shost : List ℕ
  pub ether_type : ℕ

pub record EthernetFrame : Type 0 where
  pub header : EtherHeader
  pub data_unit : DataUnit

-- `sizeof(ether_header)`
abbrev pub header_size : ℕ
header_size = 14

abbrev pub header_bytes : EtherHeader → List ℕ
header_bytes h = h.ether_dhost ++ (h.ether_shost ++ htons h.ether_type)

pub get_frame_buffer_size : EthernetFrame → ℕ
get_frame_buffer_size f = header_size + DataUnit.get_frame_buffer_size f.data_unit

unfoldable pub to_frame_buffer : EthernetFrame → List ℕ
to_frame_buffer f = header_bytes f.header ++ DataUnit.to_frame_buffer f.data_unit
