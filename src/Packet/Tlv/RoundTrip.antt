-- ===== src/Packet/Tlv/RoundTrip.antt =====
-- Writing and reading back one TLV, source/src/lldp_packet.cc.
use link_layer_discovery.Base.{
  ℕ, ◌+◌, ◌*◌, ◌≤◌, ◌<◌, ◌≡◌, List, [], ◌∷◌, ◌++◌, some, arith, length, length-append, length-take,
  length-drop, take-append_self, drop-append_self, take-append-drop, All, All-drop, bit_and,
}
use link_layer_discovery.Base.Words.{IsByte}
use link_layer_discovery.Base.Bits.{or_nine, and_nine}
use link_layer_discovery.Packet.Tlv.{
  Tlv, get_frame_buffer_size, header_of, to_frame_buffer, split_value, from_span,
}

-- What the nine bits of the length and the seven of the type can carry.
pub record IsEncodable (t : Tlv) : Type 0 where
  pub type_fits : t.type < 128
  pub value_fits : length t.value < 512

pub header_of_sum :
    (type size : ℕ) → type < 128 → size < 512 → header_of type size ≡ type * 512 + size
unfolding header_of
header_of_sum type size p q = ground (arith, or_nine type size)

pub length-to_frame_buffer : (t : Tlv) → length (to_frame_buffer t) ≡ get_frame_buffer_size t
unfolding to_frame_buffer get_frame_buffer_size
length-to_frame_buffer t = omega arith

split_value_hit :
    (type : ℕ) (value rest : List ℕ)
    → type < 128
    → length value < 512
    → split_value (type * 512 + length value) (value ++ rest)
      ≡ some (record { type = type; value = value }, rest)
unfolding split_value
split_value_hit type value rest p q = ground (
  arith,
  and_nine (type * 512 + length value),
  take-append_self value rest,
  drop-append_self value rest,
  length-append value rest,
)

-- A TLV whose type and length fit their fields is read back as it was written, and the bytes that
-- follow it are left.
pub from_span-to_frame_buffer :
    (t : Tlv) (rest : List ℕ)
    → IsEncodable t
    → from_span (to_frame_buffer t ++ rest) ≡ some (t, rest)
unfolding from_span to_frame_buffer
from_span-to_frame_buffer t rest e =
    ground (arith, e, header_of_sum t.type (length t.value), split_value_hit t.type t.value rest)

split_value_inv :
    (header : ℕ) (body : List ℕ) {t : Tlv} {rest : List ℕ}
    → header < 65536
    → split_value header body ≡ some (t, rest)
    → (header ≡ t.type * 512 + length t.value) × IsEncodable t × (body ≡ t.value ++ rest)
unfolding split_value
split_value_inv header body h e = ground (
  arith,
  and_nine header,
  length-take (bit_and header 511) body,
  take-append-drop (bit_and header 511) body,
)

-- Whatever is read is encodable, also from bytes that no sender would write: a value of 512 bytes
-- or more is never read back.
pub from_span-IsEncodable :
    (bytes : List ℕ) {t : Tlv} {rest : List ℕ}
    → All IsByte bytes
    → from_span bytes ≡ some (t, rest)
    → IsEncodable t
unfolding from_span
from_span-IsEncodable [] h e = cc
from_span-IsEncodable (b ∷ []) h e = cc
from_span-IsEncodable (hi ∷ lo ∷ body) h e =
    (split_value_inv (hi * 256 + lo) body (omega arith) e).1

-- A TLV that is read from bytes, written again before the bytes that were left, gives back the bytes
-- that were read.
pub to_frame_buffer-from_span :
    (bytes : List ℕ) {t : Tlv} {rest : List ℕ}
    → All IsByte bytes
    → from_span bytes ≡ some (t, rest)
    → to_frame_buffer t ++ rest ≡ bytes
unfolding from_span to_frame_buffer
to_frame_buffer-from_span [] h e = cc
to_frame_buffer-from_span (b ∷ []) h e = cc
to_frame_buffer-from_span (hi ∷ lo ∷ body) {t} {rest} h e = ground (
  arith,
  split_value_inv (hi * 256 + lo) body (omega arith) e,
  header_of_sum t.type (length t.value),
)

-- Reading takes two bytes at least, and no byte is made up.
pub length-from_span :
    (bytes : List ℕ) {t : Tlv} {rest : List ℕ}
    → from_span bytes ≡ some (t, rest)
    → length rest + 2 ≤ length bytes
unfolding from_span split_value
length-from_span [] e = cc
length-from_span (b ∷ []) e = cc
length-from_span (hi ∷ lo ∷ body) e = ground (arith, length-drop (bit_and (hi * 256 + lo) 511) body)

-- The bytes that are left are bytes.
pub from_span-IsByte :
    (bytes : List ℕ) {t : Tlv} {rest : List ℕ}
    → All IsByte bytes
    → from_span bytes ≡ some (t, rest)
    → All IsByte rest
unfolding from_span split_value
from_span-IsByte [] h e = cc
from_span-IsByte (b ∷ []) h e = cc
from_span-IsByte (hi ∷ lo ∷ body) h e =
    ground (arith, All-drop IsByte (bit_and (hi * 256 + lo) 511) body)
