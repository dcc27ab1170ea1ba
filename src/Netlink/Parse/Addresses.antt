-- ===== src/Netlink/Parse/Addresses.antt =====
-- The kernel's messages about addresses and the one that ends a dump, and their way through packetViewParser of
-- source/src/netlink_monitor.cc.
use link_layer_discovery.Base.{
  ℕ, ◌+◌, ◌^◌, ◌≡◌, ◌<◌, refl, true, false, List, ◌++◌, some, arith, [], ◌==◌, append-nil, subst,
  All, length, length-append, append_assoc,
}
use link_layer_discovery.Netlink.{Header, AddrView, addr_view, done_view}
use link_layer_discovery.Netlink.Fields.{
  read_field, write_field, length-write_field, read_field-write_field,
}
use link_layer_discovery.Netlink.Attributes.{parse_tlvs}
use link_layer_discovery.Netlink.Attributes.RoundTrip.{
  Fits, write_attributes, attributes_size, parse_tlvs-write_attributes,
}
use link_layer_discovery.Netlink.Parse.{
  is_link_type, is_addr_type, nlmsg_done, read_header, parse_addr_view_packet, parse_done_view,
  parse_payload, packet_view_parser,
}
use link_layer_discovery.Netlink.Parse.RoundTrip.{
  write_header, HeaderFits, read_header-write_header, length-write_header, packet_view_parser_lem,
}

-- An ifaddrmsg in memory: `prefix` and `scope` are the fields that a view drops.
abbrev pub write_ifaddrmsg : ℕ → ℕ → AddrView → List ℕ
write_ifaddrmsg prefix scope v =
    write_field 1 v.ifa_family
    ++ (write_field 1 prefix
        ++ (write_field 1 v.ifa_flags ++ (write_field 1 scope ++ write_field 4 v.ifa_index)))

abbrev pub write_addr_message : ℕ → ℕ → AddrView → List ℕ
write_addr_message prefix scope v =
    (write_header v.header ++ write_ifaddrmsg prefix scope v) ++ write_attributes v.attributes

-- A message about an address, as the kernel makes it.
pub record AddrFits (v : AddrView) : Type 0 where
  pub header_fits : HeaderFits v.header
  pub about_addr : is_addr_type v.header.nlmsg_type ≡ true
  pub family_fits : v.ifa_family < 256
  pub flags_fit : v.ifa_flags < 256
  pub index_fits : v.ifa_index < 2 ^ 32
  pub attributes_fit : All Fits v.attributes
  pub total : v.header.nlmsg_len ≡ 24 + attributes_size v.attributes

parse_addr_view_packet_lem :
    (prefix scope : ℕ) (v : AddrView) (rest packet : List ℕ)
    → AddrFits v
    → prefix < 256
    → scope < 256
    → parse_tlvs v.header packet 8 ≡ some v.attributes
    → parse_addr_view_packet v.header (write_ifaddrmsg prefix scope v ++ rest) packet
      ≡ some (addr_view v)
unfolding parse_addr_view_packet
parse_addr_view_packet_lem prefix scope v rest packet f hp hs tlvs =
    let after_scope = write_field 4 v.ifa_index ++ rest in
    let after_flags = write_field 1 scope ++ after_scope in
    let after_prefix = write_field 1 v.ifa_flags ++ after_flags in
    simp (
      append_assoc,
      read_field-write_field 1 v.ifa_family (write_field 1 prefix ++ after_prefix) f.family_fits,
      read_field-write_field 1 prefix after_prefix hp,
      read_field-write_field 1 v.ifa_flags after_flags f.flags_fit,
      read_field-write_field 1 scope after_scope hs,
      read_field-write_field 4 v.ifa_index rest f.index_fits,
      tlvs,
    )

pub length-write_ifaddrmsg :
    (prefix scope : ℕ) (v : AddrView) → length (write_ifaddrmsg prefix scope v) ≡ 8
length-write_ifaddrmsg prefix scope v =
    rw (length-append, length-append, length-append, length-append)
      (omega (
        arith,
        length-write_field 1 v.ifa_family,
        length-write_field 1 prefix,
        length-write_field 1 v.ifa_flags,
        length-write_field 1 scope,
        length-write_field 4 v.ifa_index,
      ))

no_link : (type : ℕ) → is_addr_type type ≡ true → is_link_type type ≡ false
no_link type h = ground (arith, h)

-- A message about an address is parsed into the view of which the kernel wrote it: all attributes, in their order,
-- whatever the fields that the view drops.
pub packet_view_parser-write_addr_message :
    (prefix scope : ℕ) (v : AddrView)
    → AddrFits v
    → prefix < 256
    → scope < 256
    → packet_view_parser (write_addr_message prefix scope v) ≡ some (addr_view v)
unfolding parse_payload
packet_view_parser-write_addr_message prefix scope v f hp hs =
    let info = write_ifaddrmsg prefix scope v in
    let tlvs = write_attributes v.attributes in
    let packet = write_addr_message prefix scope v in
    let read : read_header packet ≡ some (v.header, info ++ tlvs) =
      rw append_assoc (read_header-write_header v.header (info ++ tlvs) f.header_fits) in
    let front : length (write_header v.header ++ info) ≡ 24 = omega (
      arith,
      length-append (write_header v.header) info,
      length-write_header v.header,
      length-write_ifaddrmsg prefix scope v,
    ) in
    let total = f.total in
    let parsed =
      parse_tlvs-write_attributes v.header 8 (write_header v.header ++ info) v.attributes
        f.attributes_fit front (omega arith) f.header_fits.len_fits in
    let body = parse_addr_view_packet_lem prefix scope v tlvs packet f hp hs parsed in
    let about = f.about_addr in
    let other = no_link v.header.nlmsg_type f.about_addr in
    rw (packet_view_parser_lem packet (info ++ tlvs) v.header read) (simp (about, other) body)

-- The message that ends a dump: a header and an error code.
abbrev pub write_done_message : Header → ℕ → List ℕ
write_done_message h error = write_header h ++ write_field 4 error

pub record DoneFits (h : Header) (error : ℕ) : Type 0 where
  pub header_fits : HeaderFits h
  pub is_done : h.nlmsg_type ≡ nlmsg_done
  pub error_fits : error < 2 ^ 32
  pub total : h.nlmsg_len ≡ 20

pub packet_view_parser-write_done_message :
    (h : Header) (error : ℕ)
    → DoneFits h error
    → packet_view_parser (write_done_message h error) ≡ some (done_view h error)
unfolding parse_payload parse_done_view
packet_view_parser-write_done_message h error f =
    let packet = write_done_message h error in
    let code = write_field 4 error in
    let read = read_header-write_header h code f.header_fits in
    let field : read_field 4 code ≡ some (error, []) =
      subst (λ bytes. read_field 4 bytes ≡ some (error, [])) (append-nil code)
        (read_field-write_field 4 error [] f.error_fits) in
    let done = f.is_done in
    let no_link_type : is_link_type h.nlmsg_type ≡ false = ground (arith, done) in
    let no_addr_type : is_addr_type h.nlmsg_type ≡ false = ground (arith, done) in
    let ends : (h.nlmsg_type == nlmsg_done) ≡ true = ground (arith, done) in
    rw (packet_view_parser_lem packet code h read)
      (rw (no_link_type, no_addr_type, ends, field) refl)
