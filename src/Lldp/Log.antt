-- ===== src/Lldp/Log.antt =====
-- The functions of source/include/lldp.hh that print addresses and ports.
pub mod Text
pub mod Read
use link_layer_discovery.Base.{
  ℕ, suc, ◌+◌, Bool, true, false, List, [], ◌∷◌, Option, none, some, length, drop, ltb, ◌==◌, ◌&&◌,
  if◌then◌else◌,
}
use link_layer_discovery.Base.Stream.{Stream, codes, put_text, put_number, set_base, set_fill}
use link_layer_discovery.Lldp.{
  port_subtype_mac, port_subtype_net, port_subtype_local, address_subtype_mac, address_subtype_ipv4,
  address_subtype_ipv6, eth_alen,
}

-- inet_ntop, of the two families.
pub record Ntop : Type 0 where
  pub ipv4 : List ℕ → List ℕ
  pub ipv6 : List ℕ → List ℕ

-- The loop of logMac.
unfoldable pub log_octets : List ℕ → Stream → Stream
log_octets [] s = s
log_octets (b ∷ bytes) s = log_octets bytes (put_number 2 b (put_text (codes ":") s))

-- logMac up to the last line; the span has six bytes.
unfoldable pub log_mac_body : List ℕ → Stream → Stream
log_mac_body [] s = s
log_mac_body (b ∷ bytes) s = log_octets bytes (put_number 2 b (set_fill b'0' (set_base true s)))

-- logMac
unfoldable pub log_mac : List ℕ → Stream → Stream
log_mac mac s = set_base s.hex (log_mac_body mac s)

-- logIpv4 and logIpv6
unfoldable pub log_ipv4 : Ntop → Option (List ℕ) → Stream → Stream
log_ipv4 ntop none s = put_text (codes "None") s
log_ipv4 ntop (some a) s = put_text (ntop.ipv4 a) s

unfoldable pub log_ipv6 : Ntop → Option (List ℕ) → Stream → Stream
log_ipv6 ntop none s = put_text (codes "None") s
log_ipv6 ntop (some a) s = put_text (ntop.ipv6 a) s

-- The loop over the bytes of a port that is not understood.
unfoldable pub log_bytes : List ℕ → Stream → Stream
log_bytes [] s = s
log_bytes (b ∷ bytes) s = log_bytes bytes (put_text (codes " ") (put_number 2 b s))

unfoldable pub log_unknown : List ℕ → Stream → Stream
log_unknown port s = set_base s.hex (log_bytes port (set_fill b'0' (set_base true s)))

-- A network address: the subtype `family`, and the bytes after it.
unfoldable pub log_network : Ntop → ℕ → List ℕ → List ℕ → Stream → Stream
log_network ntop family address port s =
    if (family == address_subtype_mac) && (length port == 1 + 1 + eth_alen)
    then log_mac address s
    else if (family == address_subtype_ipv4) && (length port == 1 + 1 + 4)
    then put_text (ntop.ipv4 address) s
    else if (family == address_subtype_ipv6) && (length port == 1 + 1 + 16)
    then put_text (ntop.ipv6 address) s
    else log_unknown port s

log_rest : Ntop → ℕ → List ℕ → List ℕ → Stream → Stream
log_rest ntop subtype [] port s = s
log_rest ntop subtype (family ∷ address) port s =
    if subtype == port_subtype_net then log_network ntop family address port s else s

-- logPort
unfoldable pub log_port : Ntop → List ℕ → Stream → Stream
unfolding log_rest
log_port ntop [] s = put_text (codes "Missing") s
log_port ntop (subtype ∷ value) s =
    if (subtype == port_subtype_mac) && (suc (length value) == 1 + eth_alen)
    then log_mac value s
    else if subtype == port_subtype_local
    then put_text value s
    else log_rest ntop subtype value (subtype ∷ value) s
