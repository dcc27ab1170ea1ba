-- ===== src/Packet/DataUnit/RoundTrip.antt =====
-- Writing and reading back a whole data unit, source/src/lldp_packet.cc.
use link_layer_discovery.Base.{
  ℕ, zero, suc, ◌≤◌, ◌≡◌, refl, ◌≢◌, List, [], ◌∷◌, ◌++◌, none, some, arith, length, length-append,
  append_assoc, All, Option-cases, inl, inr, ◌==◌, if◌then◌else◌,
}
use link_layer_discovery.Lldp.{chassis_id_type, port_id_type, time_to_live_type}
use link_layer_discovery.Packet.Tlv
use link_layer_discovery.Packet.Tlv.{Tlv}
use link_layer_discovery.Packet.Tlv.RoundTrip.{
  IsEncodable, length-to_frame_buffer, from_span-to_frame_buffer, length-from_span,
}
use link_layer_discovery.Packet.DataUnit.{
  DataUnit, sizes, get_frame_buffer_size, write_all, to_frame_buffer, end_of_data_unit,
  read_mandatory, other_tlvs, from_span,
}

-- A TLV that stands among the optional ones: encodable, and not the end marker.
abbrev pub IsOptional : Tlv → Type 0
IsOptional t = IsEncodable t × (t.type ≢ 0)

pub record IsWellFormed (d : DataUnit) : Type 0 where
  pub chassis_encodable : IsEncodable d.chassis_id
  pub chassis_type : d.chassis_id.type ≡ chassis_id_type
  pub port_encodable : IsEncodable d.port_id
  pub port_type : d.port_id.type ≡ port_id_type
  pub ttl_encodable : IsEncodable d.time_to_live
  pub ttl_type : d.time_to_live.type ≡ time_to_live_type
  pub others_optional : All IsOptional d.optional_tlv

length-write_all : (ts : List Tlv) → length (write_all ts) ≡ sizes ts
unfolding write_all sizes
length-write_all [] = refl
length-write_all (t ∷ ts) = omega (
  arith,
  length-append (Tlv.to_frame_buffer t) (write_all ts),
  length-to_frame_buffer t,
  length-write_all ts,
)

-- `GetFrameBufferSize` is the number of bytes that `ToFrameBuffer` writes.
pub length-to_frame_buffer_unit :
    (d : DataUnit) → length (to_frame_buffer d) ≡ get_frame_buffer_size d
unfolding to_frame_buffer get_frame_buffer_size
length-to_frame_buffer_unit d =
    rw (length-append, length-append, length-append, length-append)
      (omega (
        arith,
        length-to_frame_buffer d.chassis_id,
        length-to_frame_buffer d.port_id,
        length-to_frame_buffer d.time_to_live,
        length-write_all d.optional_tlv,
      ))

-- The fuel of the loop does not matter once it reaches the number of bytes.
other_tlvs_fuel :
    (f g : ℕ) (bytes : List ℕ)
    → length bytes ≤ f
    → length bytes ≤ g
    → other_tlvs f bytes ≡ other_tlvs g bytes
unfolding other_tlvs
other_tlvs_fuel zero zero bytes p q = refl
other_tlvs_fuel zero (suc g) [] p q = unfold Tlv.from_span in refl
other_tlvs_fuel zero (suc g) (b ∷ bs) p q = absurd (omega arith)
other_tlvs_fuel (suc f) zero [] p q = unfold Tlv.from_span in refl
other_tlvs_fuel (suc f) zero (b ∷ bs) p q = absurd (omega arith)
other_tlvs_fuel (suc f) (suc g) bytes p q = elim (Option-cases (Tlv.from_span bytes)) [
  | inl e ↦ rw (e, other_tlvs) refl
  | inr ((t, rest), e) ↦
      let shorter = length-from_span bytes e in
      ground (arith, other_tlvs_fuel f g rest (omega arith) (omega arith))
]

-- The `while` as the source writes it, with the fuel gone.
abbrev pub read_others : List ℕ → List Tlv
read_others bytes = other_tlvs (length bytes) bytes

-- The loop never ends early for want of fuel: each round is the source's, and goes on with the
-- bytes that the round has left.
pub read_others_step :
    (bytes : List ℕ) {t : Tlv} {rest : List ℕ}
    → Tlv.from_span bytes ≡ some (t, rest)
    → read_others bytes ≡ (if t.type == 0 then [] else t ∷ read_others rest)
unfolding other_tlvs
read_others_step [] e = unfold Tlv.from_span in cc
read_others_step (b ∷ bs) {t} {rest} e =
    let shorter = length-from_span (b ∷ bs) e in
    ground (arith, other_tlvs_fuel (length bs) (length rest) rest (omega arith) (omega arith))

pub read_others_end : (bytes : List ℕ) → Tlv.from_span bytes ≡ none → read_others bytes ≡ []
unfolding other_tlvs
read_others_end [] e = refl
read_others_end (b ∷ bs) e = ground arith

end_span :
    (rest : List ℕ)
    → Tlv.from_span (end_of_data_unit ++ rest) ≡ some (record { type = 0; value = [] }, rest)
end_span rest = unfold Tlv.from_span in ground arith

read_others-end_of_data_unit : (rest : List ℕ) → read_others (end_of_data_unit ++ rest) ≡ []
read_others-end_of_data_unit rest = read_others_step (end_of_data_unit ++ rest) (end_span rest)

read_others-write_all :
    (ts : List Tlv) (rest : List ℕ)
    → All IsOptional ts
    → read_others (write_all ts ++ (end_of_data_unit ++ rest)) ≡ ts
unfolding write_all
read_others-write_all [] rest h = read_others-end_of_data_unit rest
read_others-write_all (t ∷ ts) rest h =
    let tail = write_all ts ++ (end_of_data_unit ++ rest) in
    rw append_assoc (
      ground (
        arith,
        h.0.1,
        read_others_step (Tlv.to_frame_buffer t ++ tail) (from_span-to_frame_buffer t tail h.0.0),
        read_others-write_all ts rest h.1,
      ))

read_mandatory_hit :
    (type : ℕ) (t : Tlv) (rest : List ℕ)
    → IsEncodable t
    → t.type ≡ type
    → read_mandatory type (Tlv.to_frame_buffer t ++ rest) ≡ some (t, rest)
unfolding read_mandatory
read_mandatory_hit type t rest h e = ground (arith, from_span-to_frame_buffer t rest h)

-- A well-formed data unit is read back as it was written, whatever follows it in the frame (the
-- padding of a short Ethernet frame, for one).
pub from_span-to_frame_buffer_unit :
    (d : DataUnit) (rest : List ℕ) → IsWellFormed d → from_span (to_frame_buffer d ++ rest) ≡ some d
unfolding from_span to_frame_buffer
from_span-to_frame_buffer_unit d rest w =
    let others = write_all d.optional_tlv ++ (end_of_data_unit ++ rest) in
    let ttl = Tlv.to_frame_buffer d.time_to_live ++ others in
    let port = Tlv.to_frame_buffer d.port_id ++ ttl in
    simp (
      append_assoc,
      read_mandatory_hit 1 d.chassis_id port w.chassis_encodable w.chassis_type,
      read_mandatory_hit 2 d.port_id ttl w.port_encodable w.port_type,
      read_mandatory_hit 3 d.time_to_live others w.ttl_encodable w.ttl_type,
      read_others-write_all d.optional_tlv rest w.others_optional,
    )
