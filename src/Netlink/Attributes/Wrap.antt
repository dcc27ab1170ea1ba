-- ===== src/Netlink/Attributes/Wrap.antt =====
-- Attributes that are not padded, in parseTlvs of source/src/netlink_monitor.cc.
use link_layer_discovery.Base.{
  ℕ, suc, ◌+◌, ◌-◌, ◌^◌, ◌%◌, ◌≤◌, ◌≡◌, ◌≢◌, refl, subst, [], none, arith, append-nil, drop,
  drop-append_of_length,
}
use link_layer_discovery.Base.Words.{u64}
use link_layer_discovery.Netlink.{TlvView}
use link_layer_discovery.Netlink.Fields.{read_field, align}
use link_layer_discovery.Netlink.Attributes.{attribute, past_end, read_attribute, attributes}
use link_layer_discovery.Netlink.Attributes.RoundTrip.{
  Fits, attribute_size, write_attribute, length-write_attribute, read_attribute-write_attribute,
}

-- Where the last attribute's length is not a multiple of four and the message's length counts no padding,
-- the bytes that remain wrap below zero and the loop reads on past the end of the packet.
pub attributes_unaligned :
    (t : TlvView) (fuel : ℕ)
    → Fits t
    → attribute_size t % 4 ≢ 0
    → attributes (suc (suc fuel)) (attribute_size t) (write_attribute t) ≡ none
unfolding attributes
attributes_unaligned t fuel h unaligned =
    let n = attribute_size t in
    let size_fits = h.size_fits in
    let whole = append-nil (write_attribute t) in
    let step : read_attribute n (write_attribute t) ≡ attribute t (align n) =
      subst (λ bytes. read_attribute n bytes ≡ attribute t (align n)) whole
        (read_attribute-write_attribute t n [] h (omega arith)) in
    let dropped : drop (align n) (write_attribute t) ≡ [] =
      subst (λ bytes. drop (align n) bytes ≡ []) whole
        (drop-append_of_length (align n) (write_attribute t) [] (length-write_attribute t h)) in
    let wrapped : 4 ≤ u64 (n + (2 ^ 64 - align n)) = omega arith in
    let beyond : read_attribute (u64 (n + (2 ^ 64 - align n))) [] ≡ past_end =
      unfold read_attribute read_field in ground arith in
    rw (attributes, step, dropped, beyond) refl
