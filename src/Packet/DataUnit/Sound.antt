-- ===== src/Packet/DataUnit/Sound.antt =====
-- What LLDPDataUnit::FromSpan of source/src/lldp_packet.cc accepts, of any bytes.
use link_layer_discovery.Base.{
  ℕ, zero, suc, ◌≡◌, refl, sym, List, ◌++◌, some, arith, length, append_assoc, All, Option-cases,
  inl, inr, ◌==◌, Bool-cases,
}
use link_layer_discovery.Base.Words.{IsByte}
use link_layer_discovery.Packet.Tlv
use link_layer_discovery.Packet.Tlv.{Tlv}
use link_layer_discovery.Packet.Tlv.RoundTrip.{
  IsEncodable, to_frame_buffer-from_span, from_span-IsEncodable, from_span-IsByte,
}
use link_layer_discovery.Packet.DataUnit.{
  DataUnit, write_all, read_mandatory, other_tlvs, from_span,
}
use link_layer_discovery.Packet.DataUnit.RoundTrip.{IsOptional, IsWellFormed, read_others}

-- A mandatory TLV that was read has the type that was asked for, and stands at the front.
read_mandatory_inv :
    (type : ℕ) (bytes : List ℕ) {t : Tlv} {rest : List ℕ}
    → All IsByte bytes
    → read_mandatory type bytes ≡ some (t, rest)
    → IsEncodable t × (t.type ≡ type) × (bytes ≡ Tlv.to_frame_buffer t ++ rest) × All IsByte rest
unfolding read_mandatory
read_mandatory_inv type bytes {t} {rest} h e = elim (Option-cases (Tlv.from_span bytes)) [
  | inl q ↦ ground arith
  | inr ((u, tail), q) ↦
      let same : (u ≡ t) × (tail ≡ rest) × (u.type ≡ type) = ground arith in
      let hit : Tlv.from_span bytes ≡ some (t, rest) = ground arith in
      (
        from_span-IsEncodable bytes h hit,
        ground arith,
        sym (to_frame_buffer-from_span bytes h hit),
        from_span-IsByte bytes h hit,
      )
]

read_others_inv :
    (fuel : ℕ) (bytes : List ℕ)
    → All IsByte bytes
    → (rest : List ℕ) × (bytes ≡ write_all (other_tlvs fuel bytes) ++ rest)
      × All IsOptional (other_tlvs fuel bytes)
unfolding other_tlvs write_all
read_others_inv zero bytes h = (bytes, refl, tt)
read_others_inv (suc fuel) bytes h = elim (Option-cases (Tlv.from_span bytes)) [
  | inl q ↦ (bytes, ground arith, ground arith)
  | inr ((t, tail), q) ↦ elim (Bool-cases (t.type == 0)) [
    | inl last ↦ (bytes, ground arith, ground arith)
    | inr more ↦
        let (rest, e, ok) = read_others_inv fuel tail (from_span-IsByte bytes h q) in
        let whole = to_frame_buffer-from_span bytes h q in
        let fits = from_span-IsEncodable bytes h q in
        (rest, rw (q, more, other_tlvs) (rw append_assoc (rw (← e) (sym whole))), ground arith)
  ]
]

-- A data unit that is accepted from bytes is well formed, and the bytes begin with its TLVs: nothing
-- is skipped or reordered.
pub from_span-IsWellFormed :
    (bytes : List ℕ) {d : DataUnit}
    → All IsByte bytes
    → from_span bytes ≡ some d
    → (rest : List ℕ) × IsWellFormed d
      × (bytes
          ≡ Tlv.to_frame_buffer d.chassis_id
            ++ (Tlv.to_frame_buffer d.port_id
                ++ (Tlv.to_frame_buffer d.time_to_live ++ (write_all d.optional_tlv ++ rest))))
unfolding from_span
from_span-IsWellFormed bytes {d} h e = elim (Option-cases (read_mandatory 1 bytes)) [
  | inl q ↦ absurd (ground arith)
  | inr ((c, after_c), q) ↦
      let chassis = read_mandatory_inv 1 bytes h q in
      elim (Option-cases (read_mandatory 2 after_c)) [
        | inl q2 ↦ absurd (ground arith)
        | inr ((p, after_p), q2) ↦
            let port = read_mandatory_inv 2 after_c chassis.3 q2 in
            elim (Option-cases (read_mandatory 3 after_p)) [
              | inl q3 ↦ absurd (ground arith)
              | inr ((t, others), q3) ↦
                  let ttl = read_mandatory_inv 3 after_p port.3 q3 in
                  let (rest, tail, ok) = read_others_inv (length others) others ttl.3 in
                  let same : d ≡ record {
                    chassis_id = c;
                    port_id = p;
                    time_to_live = t;
                    optional_tlv = read_others others;
                  } =
                    ground arith in
                  (
                    rest,
                    rw same (record {
                      chassis_encodable = chassis.0;
                      chassis_type = chassis.1;
                      port_encodable = port.0;
                      port_type = port.1;
                      ttl_encodable = ttl.0;
                      ttl_type = ttl.1;
                      others_optional = ok;
                    }),
                    rw same (ground (arith, chassis.2, port.2, ttl.2, tail)),
                  )
            ]
      ]
]
