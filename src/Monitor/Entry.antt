-- ===== src/Monitor/Entry.antt =====
-- From a data unit to a NeighbourEntry, source/src/lldp_monitor.cc.
pub mod Shape
use link_layer_discovery.Base.{
  ℕ, suc, ◌+◌, ◌*◌, ◌%◌, Bool, List, [], ◌∷◌, Option, none, some, length, take, drop, ltb, ◌==◌,
  not, ◌||◌, if◌then◌else◌,
}
use link_layer_discovery.Base.Words.{u16, ntohs}
use link_layer_discovery.Lldp.{
  management_address_type, address_subtype_ipv4, address_subtype_ipv6, address_subtype_mac,
}
use link_layer_discovery.Packet.Tlv.{Tlv}
use link_layer_discovery.Packet.DataUnit.{DataUnit}

-- The variant of the three fixed-size spans.
pub data Address : Type 0 where
  ipv4 : List ℕ → Address
  ipv6 : List ℕ → Address
  mac : List ℕ → Address

-- The span of `size` bytes behind the length and the subtype, where the length byte agrees.
sized : ℕ → ℕ → List ℕ → (List ℕ → Address) → Option Address
sized size len value address =
    if len == 1 + size then some (address (take size (drop 2 value))) else none

by_subtype : ℕ → ℕ → List ℕ → Option Address
unfolding sized
by_subtype subtype len value =
    if subtype == address_subtype_ipv4
    then sized 4 len value ipv4
    else if subtype == address_subtype_ipv6
    then sized 16 len value ipv6
    else if subtype == address_subtype_mac
    then sized 6 len value mac
    else none

-- managementTlvGetManagementString. The first byte is the length, the second the subtype. A value
-- of one byte has no room for a length above 0, so the second byte is there when it is read.
unfoldable pub management_address : List ℕ → Option Address
unfolding by_subtype
management_address [] = none
management_address (len ∷ []) = none
management_address (len ∷ subtype ∷ rest) =
    if len == 0 || ltb (suc (suc (length rest))) (1 + len)
    then none
    else by_subtype subtype len (len ∷ subtype ∷ rest)

pub record NeighbourEntry : Type 0 where
  pub chassis_id : List ℕ
  pub port_id : List ℕ
  pub interface_index : ℕ  -- uint16_t
  pub time_to_live : ℕ  -- uint16_t
  pub ipv4_address : Option (List ℕ)
  pub ipv6_address : Option (List ℕ)

pub record Addresses : Type 0 where
  pub ipv4_address : Option (List ℕ)
  pub ipv6_address : Option (List ℕ)

keep_address : Option Address → Addresses → Addresses
keep_address (some (ipv4 a)) s = record s { ipv4_address = some a }
keep_address (some (ipv6 a)) s = record s { ipv6_address = some a }
keep_address (some (mac a)) s = s
keep_address none s = s

-- The loop over the optional TLVs: the last address of each family stays.
unfoldable pub collect : List Tlv → Addresses → Addresses
unfolding keep_address
collect [] s = s
collect (t ∷ ts) s =
    collect ts
      (if t.type == management_address_type then keep_address (management_address t.value) s else s)

abbrev pub no_addresses : Addresses
no_addresses = record { ipv4_address = none; ipv6_address = none }

-- `time_to_live.value[0]` and `[1]`, read without a test of the size: `none` stands for the
-- undefined behaviour of a read past the end of the span.
unfoldable pub ttl_of : List ℕ → Option ℕ
ttl_of [] = none
ttl_of (a ∷ []) = none
ttl_of (hi ∷ lo ∷ rest) = some (ntohs hi lo)

pub entry_with : DataUnit → ℕ → Addresses → ℕ → NeighbourEntry
entry_with d if_index found ttl = record {
  chassis_id = d.chassis_id.value;
  port_id = d.port_id.value;
  interface_index = u16 if_index;
  time_to_live = ttl;
  ipv4_address = found.ipv4_address;
  ipv6_address = found.ipv6_address;
}

-- lldpduToNeighbourEntry. The caller's `int` index becomes a uint16_t.
unfoldable pub lldpdu_to_neighbour_entry : DataUnit → ℕ → Option NeighbourEntry
unfolding ttl_of entry_with
lldpdu_to_neighbour_entry d if_index = elim (ttl_of d.time_to_live.value) [
  | none ↦ none
  | some ttl ↦ some (entry_with d if_index (collect d.optional_tlv no_addresses) ttl)
]
