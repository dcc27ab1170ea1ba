-- ===== src/Netlink/Parse/RoundTrip.antt =====
-- The messages that the kernel writes, in the order of the fields of its structs, and their way through
-- packetViewParser of source/src/netlink_monitor.cc.
use link_layer_discovery.Base.{
  ℕ, ◌+◌, ◌^◌, ◌≡◌, ◌<◌, refl, true, List, ◌++◌, some, arith, All, length, length-append,
  append_assoc,
}
use link_layer_discovery.Netlink.{Header, LinkView, link_view}
use link_layer_discovery.Netlink.Fields.{write_field, length-write_field, read_field-write_field}
use link_layer_discovery.Netlink.Attributes.{parse_tlvs}
use link_layer_discovery.Netlink.Attributes.RoundTrip.{
  Fits, write_attributes, attributes_size, parse_tlvs-write_attributes,
}
use link_layer_discovery.Netlink.Parse.{
  read_header, is_link_type, parse_link_view_packet, parse_payload, packet_view_parser,
}

-- A nlmsghdr in memory.
abbrev pub write_header : Header → List ℕ
write_header h =
    write_field 4 h.nlmsg_len
    ++ (write_field 2 h.nlmsg_type
        ++ (write_field 2 h.nlmsg_flags
            ++ (write_field 4 h.nlmsg_seq ++ write_field 4 h.nlmsg_pid)))

pub record HeaderFits (h : Header) : Type 0 where
  pub len_fits : h.nlmsg_len < 2 ^ 32
  pub type_fits : h.nlmsg_type < 2 ^ 16
  pub flags_fit : h.nlmsg_flags < 2 ^ 16
  pub seq_fits : h.nlmsg_seq < 2 ^ 32
  pub pid_fits : h.nlmsg_pid < 2 ^ 32

pub read_header-write_header :
    (h : Header) (rest : List ℕ)
    → HeaderFits h
    → read_header (write_header h ++ rest) ≡ some (h, rest)
unfolding read_header
read_header-write_header h rest f =
    let after_seq = write_field 4 h.nlmsg_pid ++ rest in
    let after_flags = write_field 4 h.nlmsg_seq ++ after_seq in
    let after_type = write_field 2 h.nlmsg_flags ++ after_flags in
    let after_len = write_field 2 h.nlmsg_type ++ after_type in
    simp (
      append_assoc,
      read_field-write_field 4 h.nlmsg_len after_len f.len_fits,
      read_field-write_field 2 h.nlmsg_type after_type f.type_fits,
      read_field-write_field 2 h.nlmsg_flags after_flags f.flags_fit,
      read_field-write_field 4 h.nlmsg_seq after_seq f.seq_fits,
      read_field-write_field 4 h.nlmsg_pid rest f.pid_fits,
    )

pub length-write_header : (h : Header) → length (write_header h) ≡ 16
length-write_header h =
    rw (length-append, length-append, length-append, length-append)
      (omega (
        arith,
        length-write_field 4 h.nlmsg_len,
        length-write_field 2 h.nlmsg_type,
        length-write_field 2 h.nlmsg_flags,
        length-write_field 4 h.nlmsg_seq,
        length-write_field 4 h.nlmsg_pid,
      ))

-- An ifinfomsg in memory: `family`, `pad` and `change` are the fields that a view drops.
abbrev pub write_ifinfomsg : ℕ → ℕ → ℕ → LinkView → List ℕ
write_ifinfomsg family pad change v =
    write_field 1 family
    ++ (write_field 1 pad
        ++ (write_field 2 v.ifi_type
            ++ (write_field 4 v.ifi_index ++ (write_field 4 v.ifi_flags ++ write_field 4 change))))

abbrev pub write_link_message : ℕ → ℕ → ℕ → LinkView → List ℕ
write_link_message family pad change v =
    (write_header v.header ++ write_ifinfomsg family pad change v) ++ write_attributes v.attributes

-- A message about an interface, as the kernel makes it.
pub record LinkFits (v : LinkView) : Type 0 where
  pub header_fits : HeaderFits v.header
  pub about_link : is_link_type v.header.nlmsg_type ≡ true
  pub index_fits : v.ifi_index < 2 ^ 32
  pub ifi_type_fits : v.ifi_type < 2 ^ 16
  pub ifi_flags_fit : v.ifi_flags < 2 ^ 32
  pub attributes_fit : All Fits v.attributes
  pub total : v.header.nlmsg_len ≡ 32 + attributes_size v.attributes

pub packet_view_parser_lem :
    (packet payload : List ℕ) (h : Header)
    → read_header packet ≡ some (h, payload)
    → packet_view_parser packet ≡ parse_payload h payload packet
unfolding packet_view_parser
packet_view_parser_lem packet payload h e = rw e refl

-- The six fields, and then the attributes of the packet.
parse_link_view_packet_lem :
    (family pad change : ℕ) (v : LinkView) (rest packet : List ℕ)
    → LinkFits v
    → family < 256
    → pad < 256
    → change < 2 ^ 32
    → parse_tlvs v.header packet 16 ≡ some v.attributes
    → parse_link_view_packet v.header (write_ifinfomsg family pad change v ++ rest) packet
      ≡ some (link_view v)
unfolding parse_link_view_packet
parse_link_view_packet_lem family pad change v rest packet f hf hp hc tlvs =
    let after_flags = write_field 4 change ++ rest in
    let after_index = write_field 4 v.ifi_flags ++ after_flags in
    let after_type = write_field 4 v.ifi_index ++ after_index in
    let after_pad = write_field 2 v.ifi_type ++ after_type in
    simp (
      append_assoc,
      read_field-write_field 1 family (write_field 1 pad ++ after_pad) hf,
      read_field-write_field 1 pad after_pad hp,
      read_field-write_field 2 v.ifi_type after_type f.ifi_type_fits,
      read_field-write_field 4 v.ifi_index after_index f.index_fits,
      read_field-write_field 4 v.ifi_flags after_flags f.ifi_flags_fit,
      read_field-write_field 4 change rest hc,
      tlvs,
    )

pub length-write_ifinfomsg :
    (family pad change : ℕ) (v : LinkView) → length (write_ifinfomsg family pad change v) ≡ 16
length-write_ifinfomsg family pad change v =
    rw (length-append, length-append, length-append, length-append, length-append)
      (omega (
        arith,
        length-write_field 1 family,
        length-write_field 1 pad,
        length-write_field 2 v.ifi_type,
        length-write_field 4 v.ifi_index,
        length-write_field 4 v.ifi_flags,
        length-write_field 4 change,
      ))

-- A message about an interface is parsed into the view of which the kernel wrote it: all attributes, in
-- their order, whatever the fields that the view drops.
pub packet_view_parser-write_link_message :
    (family pad change : ℕ) (v : LinkView)
    → LinkFits v
    → family < 256
    → pad < 256
    → change < 2 ^ 32
    → packet_view_parser (write_link_message family pad change v) ≡ some (link_view v)
unfolding parse_payload
packet_view_parser-write_link_message family pad change v f hf hp hc =
    let info = write_ifinfomsg family pad change v in
    let tlvs = write_attributes v.attributes in
    let packet = write_link_message family pad change v in
    let read : read_header packet ≡ some (v.header, info ++ tlvs) =
      rw append_assoc (read_header-write_header v.header (info ++ tlvs) f.header_fits) in
    let front : length (write_header v.header ++ info) ≡ 32 = omega (
      arith,
      length-append (write_header v.header) info,
      length-write_header v.header,
      length-write_ifinfomsg family pad change v,
    ) in
    let total = f.total in
    let parsed =
      parse_tlvs-write_attributes v.header 16 (write_header v.header ++ info) v.attributes
        f.attributes_fit front (omega arith) f.header_fits.len_fits in
    let body = parse_link_view_packet_lem family pad change v tlvs packet f hf hp hc parsed in
    let about = f.about_link in
    rw (packet_view_parser_lem packet (info ++ tlvs) v.header read) (simp (about) body)
