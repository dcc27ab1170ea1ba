-- ===== src/Monitor/Entry/Shape.antt =====
-- The fields of a neighbour entry, source/src/lldp_monitor.cc.
use link_layer_discovery.Base.{
  ℕ, ◌+◌, ◌*◌, ◌≤◌, ◌<◌, ◌≡◌, refl, List, [], ◌∷◌, ◌++◌, none, some, arith, length,
  take-append_of_length, length-append,
}
use link_layer_discovery.Base.Words.{u16}
use link_layer_discovery.Lldp.{address_subtype_ipv4, address_subtype_ipv6, address_subtype_mac}
use link_layer_discovery.Packet.DataUnit.{DataUnit}
use link_layer_discovery.Monitor.Entry.{
  NeighbourEntry, ipv4, ipv6, mac, management_address, ttl_of, entry_with, collect, no_addresses,
  lldpdu_to_neighbour_entry,
}

-- The time to live is there exactly from two bytes on.
pub ttl_of-none : (value : List ℕ) → length value < 2 → ttl_of value ≡ none
unfolding ttl_of
ttl_of-none [] h = refl
ttl_of-none (a ∷ []) h = refl
ttl_of-none (a ∷ b ∷ rest) h = absurd (omega arith)

pub ttl_of-some : (value : List ℕ) → 2 ≤ length value → (t : ℕ) × (ttl_of value ≡ some t)
unfolding ttl_of
ttl_of-some [] h = absurd (omega arith)
ttl_of-some (a ∷ []) h = absurd (omega arith)
ttl_of-some (a ∷ b ∷ rest) h = (a * 256 + b, refl)

-- What the entry of a data unit with a time to live is.
pub entry_shape :
    (d : DataUnit) (if_index ttl : ℕ)
    → ttl_of d.time_to_live.value ≡ some ttl
    → (e : NeighbourEntry) × (lldpdu_to_neighbour_entry d if_index ≡ some e)
      × (e.chassis_id ≡ d.chassis_id.value)
      × (e.port_id ≡ d.port_id.value)
      × (e.time_to_live ≡ ttl)
      × (e.interface_index ≡ u16 if_index)
unfolding lldpdu_to_neighbour_entry
entry_shape d if_index ttl t = (
  entry_with d if_index (collect d.optional_tlv no_addresses) ttl,
  ground arith,
  refl,
  refl,
  refl,
  refl,
)

pub entry_undefined :
    (d : DataUnit) (if_index : ℕ)
    → length d.time_to_live.value < 2
    → lldpdu_to_neighbour_entry d if_index ≡ none
unfolding lldpdu_to_neighbour_entry
entry_undefined d if_index short =
    rw (ttl_of-none d.time_to_live.value short, lldpdu_to_neighbour_entry) refl

-- A management value whose length byte agrees with the address, whatever follows it.
module _ (a tail : List ℕ) where
  pub management_address-ipv4 :
      length a ≡ 4 → management_address (5 ∷ address_subtype_ipv4 ∷ (a ++ tail)) ≡ some (ipv4 a)
  unfolding management_address
  management_address-ipv4 e = ground (arith, take-append_of_length 4 a tail e, length-append a tail)

  pub management_address-ipv6 :
      length a ≡ 16 → management_address (17 ∷ address_subtype_ipv6 ∷ (a ++ tail)) ≡ some (ipv6 a)
  unfolding management_address
  management_address-ipv6 e =
      ground (arith, take-append_of_length 16 a tail e, length-append a tail)

  pub management_address-mac :
      length a ≡ 6 → management_address (7 ∷ address_subtype_mac ∷ (a ++ tail)) ≡ some (mac a)
  unfolding management_address
  management_address-mac e = ground (arith, take-append_of_length 6 a tail e, length-append a tail)
