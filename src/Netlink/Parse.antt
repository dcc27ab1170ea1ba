-- ===== src/Netlink/Parse.antt =====
-- From bytes to views: packetViewParser of source/src/netlink_monitor.cc. `none` is a read, or
-- an iterator, past the end of the packet.
pub mod RoundTrip
pub mod Addresses
use link_layer_discovery.Base.{
  ℕ, ◌+◌, ◌-◌, ◌^◌, Bool, ◌||◌, List, Option, none, some, length, take, ltb, ◌==◌, if◌then◌else◌,
  ◌>>=◌, bit_and,
}
use link_layer_discovery.Base.Words.{u32}
use link_layer_discovery.Netlink.Fields.{read_field, align}
use link_layer_discovery.Netlink.Attributes.{header_size, parse_tlvs}
use link_layer_discovery.Netlink.{
  Header, TlvView, LinkView, AddrView, ErrorContentView, PacketView, message_view, link_view,
  addr_view, error_view, done_view,
}

-- `memcpy` of a nlmsghdr, and what stands at NLMSG_DATA.
unfoldable pub read_header : List ℕ → Option (Header × List ℕ)
read_header packet = do
  (len, r1) ← read_field 4 packet
  (type, r2) ← read_field 2 r1
  (flags, r3) ← read_field 2 r2
  (seq, r4) ← read_field 4 r3
  (pid, payload) ← read_field 4 r4
  some (
    record {
      nlmsg_len = len;
      nlmsg_type = type;
      nlmsg_flags = flags;
      nlmsg_seq = seq;
      nlmsg_pid = pid;
    },
    payload,
  )

-- NLMSG_PAYLOAD(header, 0), which is an unsigned int.
abbrev pub payload_of : Header → ℕ
payload_of h = u32 (h.nlmsg_len + (2 ^ 32 - header_size))

-- parseLinkViewPacket
unfoldable pub parse_link_view_packet : Header → List ℕ → List ℕ → Option PacketView
parse_link_view_packet h payload packet = do
  (family, r1) ← read_field 1 payload
  (pad, r2) ← read_field 1 r1
  (type, r3) ← read_field 2 r2
  (index, r4) ← read_field 4 r3
  (flags, r5) ← read_field 4 r4
  (change, r6) ← read_field 4 r5
  tlvs ← parse_tlvs h packet 16
  some (
      link_view (record {
        header = h;
        ifi_type = type;
        ifi_index = index;
        ifi_flags = flags;
        attributes = tlvs;
      }))

-- parseAddrViewPacket
unfoldable pub parse_addr_view_packet : Header → List ℕ → List ℕ → Option PacketView
parse_addr_view_packet h payload packet = do
  (family, r1) ← read_field 1 payload
  (prefixlen, r2) ← read_field 1 r1
  (flags, r3) ← read_field 1 r2
  (scope, r4) ← read_field 1 r3
  (index, r5) ← read_field 4 r4
  tlvs ← parse_tlvs h packet 8
  some (
      addr_view (record {
        header = h;
        ifa_family = family;
        ifa_flags = flags;
        ifa_index = index;
        attributes = tlvs;
      }))

-- NLM_F_CAPPED and `sizeof(nlmsgerr)`
abbrev capped : ℕ
capped = 256

abbrev pub error_size : ℕ
error_size = 20

-- The size of the original content, where it is there, and the payload's size with it.
original_content : Header → Header → Option ℕ
original_content h msg = if bit_and h.nlmsg_flags capped == 0 then some (payload_of msg) else none

payload_size : Option ℕ → ℕ
payload_size none = error_size
payload_size (some size) = align error_size + size

-- parseErrorViewPacket
unfoldable pub parse_error_view_packet : Header → List ℕ → List ℕ → Option PacketView
unfolding original_content payload_size
parse_error_view_packet h payload packet = do
  (code, r1) ← read_field 4 payload
  (msg, r2) ← read_header r1
  tlvs ← parse_tlvs h packet (payload_size (original_content h msg))
  some (
      error_view h (record {
        error = code;
        msg = msg;
        original_content = original_content h msg;
        attributes = tlvs;
      }))

parse_done_view : Header → List ℕ → Option PacketView
parse_done_view h payload = do (code, rest) ← read_field 4 payload; some (done_view h code)

parse_message_view : Header → List ℕ → Option PacketView
parse_message_view h payload =
    if ltb (length payload) (payload_of h)
    then none
    else some (message_view h (take (payload_of h) payload))

-- RTM_NEWLINK, RTM_DELLINK, RTM_GETLINK; RTM_NEWADDR, RTM_DELADDR, RTM_GETADDR.
abbrev pub is_link_type : ℕ → Bool
is_link_type type = type == 18 || type == 16 || type == 17

abbrev pub is_addr_type : ℕ → Bool
is_addr_type type = type == 22 || type == 20 || type == 21

-- NLMSG_DONE and NLMSG_ERROR
abbrev pub nlmsg_done : ℕ
nlmsg_done = 3

abbrev pub nlmsg_error : ℕ
nlmsg_error = 2

-- The choice by the type.
unfoldable pub parse_payload : Header → List ℕ → List ℕ → Option PacketView
unfolding parse_done_view parse_message_view
parse_payload h payload packet =
    if is_link_type h.nlmsg_type
    then parse_link_view_packet h payload packet
    else if is_addr_type h.nlmsg_type
    then parse_addr_view_packet h payload packet
    else if h.nlmsg_type == nlmsg_done
    then parse_done_view h payload
    else if h.nlmsg_type == nlmsg_error
    then parse_error_view_packet h payload packet
    else parse_message_view h payload

-- packetViewParser
unfoldable pub packet_view_parser : List ℕ → Option PacketView
packet_view_parser packet = do (h, payload) ← read_header packet; parse_payload h payload packet
