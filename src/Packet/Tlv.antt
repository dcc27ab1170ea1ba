-- ===== src/Packet/Tlv.antt =====
-- LLDPDUTypeLengthValue of source/src/lldp_packet.cc.
pub mod RoundTrip
use link_layer_discovery.Base.{
  ℕ, ◌+◌, ◌*◌, ◌/◌, bit_and, bit_or, List, [], ◌∷◌, ◌++◌, Option, none, some, length, take, drop,
  ltb, if◌then◌else◌,
}
use link_layer_discovery.Base.Words.{u8, u16, htons, ntohs}
use link_layer_discovery.Lldp.{type_mask}

-- `type` is a uint8_t.
pub record Tlv : Type 0 where
  pub type : ℕ
  pub value : List ℕ

pub get_frame_buffer_size : Tlv → ℕ
get_frame_buffer_size t = 2 + length t.value

-- `htons((type << TYPE_BIT_OFFSET) | length)`, with the conversions to uint16_t.
pub header_of : ℕ → ℕ → ℕ
header_of type size = u16 (bit_or (type * 512) (u16 size))

pub to_frame_buffer : Tlv → List ℕ
to_frame_buffer t = htons (header_of t.type (length t.value)) ++ t.value

-- What stands behind the two bytes of the header.
split_value : ℕ → List ℕ → Option (Tlv × List ℕ)
split_value header rest =
    let size = bit_and header type_mask in
    let type = u8 (header / 512) in
    if ltb (length rest) size
    then none
    else some (record { type = type; value = take size rest }, drop size rest)

-- The span is passed by reference: on success it is returned without the bytes that were read.
unfoldable pub from_span : List ℕ → Option (Tlv × List ℕ)
unfolding split_value
from_span [] = none
from_span (b ∷ []) = none
from_span (hi ∷ lo ∷ rest) = split_value (ntohs hi lo) rest
