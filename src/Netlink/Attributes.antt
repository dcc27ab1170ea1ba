-- ===== src/Netlink/Attributes.antt =====
-- parseTlvs of source/src/netlink_monitor.cc. `none` is a read, or an iterator, past the end of the packet.
pub mod RoundTrip
pub mod Wrap
use link_layer_discovery.Base.{
  ℕ, zero, suc, ◌+◌, ◌-◌, ◌^◌, ◌&&◌, List, [], ◌∷◌, Option, none, some, length, take, drop, ltb,
  leb, if◌then◌else◌, ◌>>=◌,
}
use link_layer_discovery.Base.Words.{u64}
use link_layer_discovery.Netlink.Fields.{read_field, align}
use link_layer_discovery.Netlink.{Header, TlvView}

-- NLMSG_HDRLEN
abbrev pub header_size : ℕ
header_size = 16

-- NLMSG_PAYLOAD of a size_t: the subtraction wraps.
abbrev pub payload_left : Header → ℕ → ℕ
payload_left h size = u64 (h.nlmsg_len + (2 ^ 64 - align (size + header_size)))

-- A round of the loop: RTA_OK, and the attribute with its size as RTA_NEXT takes it.
pub data Attribute : Type 0 where
  past_end : Attribute
  no_attribute : Attribute
  attribute : TlvView → ℕ → Attribute

-- The value is a span of RTA_PAYLOAD bytes.
pub take_value : ℕ → ℕ → List ℕ → Attribute
take_value len type bytes =
    if ltb (length bytes) (len - 4)
    then past_end
    else attribute (record { rta_type = type; value = take (len - 4) bytes }) (align len)

check_attribute : ℕ → Option (ℕ × ℕ × List ℕ) → Attribute
check_attribute remaining none = past_end
check_attribute remaining (some (len, type, bytes)) =
    if leb 4 len && leb len remaining then take_value len type bytes else no_attribute

read_rtattr : List ℕ → Option (ℕ × ℕ × List ℕ)
read_rtattr bytes = do
  (len, r1) ← read_field 2 bytes
  (type, r2) ← read_field 2 r1
  some (len, type, r2)

unfoldable pub read_attribute : ℕ → List ℕ → Attribute
unfolding take_value check_attribute read_rtattr
read_attribute remaining bytes =
    if ltb remaining 4 then no_attribute else check_attribute remaining (read_rtattr bytes)

pub keep_attribute : TlvView → Option (List TlvView) → Option (List TlvView)
keep_attribute t none = none
keep_attribute t (some ts) = some (t ∷ ts)

-- The loop of parseTlvs. Each round takes four bytes at least, and none can be read where no byte is
-- left, so one more than the number of the bytes is enough fuel.
unfoldable pub attributes : ℕ → ℕ → List ℕ → Option (List TlvView)
unfolding keep_attribute
attributes zero remaining bytes = none
attributes (suc fuel) remaining bytes = elim (read_attribute remaining bytes) [
  | past_end ↦ none
  | no_attribute ↦ some []
  | attribute t size ↦
      keep_attribute t (attributes fuel (u64 (remaining + (2 ^ 64 - size))) (drop size bytes))
]

-- parseTlvs
unfoldable pub parse_tlvs : Header → List ℕ → ℕ → Option (List TlvView)
parse_tlvs h packet size =
    let offset = align (size + header_size) in
    if ltb (length packet) offset
    then none
    else attributes (suc (length packet)) (payload_left h size) (drop offset packet)
