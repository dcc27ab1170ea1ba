-- ===== src/Client/Overflow.antt =====
-- DumpData of source/src/client.cc on a port identifier that is too long for its packet.
use link_layer_discovery.Base.{
  ℕ, suc, List, [], ◌∷◌, none, length, ltb, ◌≡◌, refl, arith, ◌||◌, Bool, true, false, Option-cases,
  Bool-cases, inl, inr,
}
use link_layer_discovery.Base.Words.{u16}
use link_layer_discovery.Base.Key.{nat_key}
use link_layer_discovery.Base.Map.{Map}
use link_layer_discovery.Sender.{LldpSender}
use link_layer_discovery.Monitor.Neighbours.{PortMap, NeighbourList}
use link_layer_discovery.Monitor.Entry
use link_layer_discovery.Client.Dump.{
  neighbour_entries, dump_neighbour, dump_ports, dump_chassis, dump_data,
}

-- Whether a port identifier of a map, or of the list, has more than 506 bytes.
abbrev pub has_large_port : PortMap → Bool
has_large_port [] = false
has_large_port ((p, e) ∷ ports) = ltb 506 (length p) || has_large_port ports

abbrev pub is_large : NeighbourList → Bool
is_large [] = false
is_large ((c, ports) ∷ m) = has_large_port ports || is_large m

module _ (device_info : Map ℕ LldpSender) where
  dump_neighbour_large :
      (k n : ℕ) (p : List ℕ) (e : Entry.NeighbourEntry)
      → ltb 506 (length p) ≡ true
      → dump_neighbour device_info k n p e ≡ none
  unfolding dump_neighbour neighbour_entries
  dump_neighbour_large k n p e h = rw (h) refl

  dump_ports_large :
      (k n : ℕ) (ports : PortMap)
      → has_large_port ports ≡ true
      → dump_ports device_info k n ports ≡ none
  unfolding dump_ports
  dump_ports_large k n [] h = ground (arith, h)
  dump_ports_large k n ((p, e) ∷ ports) h =
      let rest = dump_ports_large k (u16 (suc n)) ports in
      elim (Bool-cases (ltb 506 (length p))) [
        | inl large ↦ rw (dump_neighbour_large k n p e large) refl
        | inr fits ↦ elim (Option-cases (dump_neighbour device_info k n p e)) [
          | inl failed ↦ rw (failed) refl
          | inr (l, first) ↦ rw (first, rest (ground (arith, h, fits))) refl
        ]
      ]

  dump_chassis_large :
      (k n : ℕ) (m : NeighbourList) → is_large m ≡ true → dump_chassis device_info k n m ≡ none
  unfolding dump_chassis
  dump_chassis_large k n [] h = ground (arith, h)
  dump_chassis_large k n ((c, ports) ∷ m) h =
      elim (Option-cases (dump_ports device_info k n ports)) [
        | inl failed ↦ rw (failed) refl
        | inr ((l, last), first) ↦ elim (Bool-cases (has_large_port ports)) [
          | inl large ↦ rw (dump_ports_large k n ports large) refl
          | inr fits ↦
              rw (first, dump_chassis_large (u16 (suc k)) last m (ground (arith, h, fits))) refl
        ]
      ]

-- One neighbour with a port identifier of more than 506 bytes is enough to make the whole dump
-- undefined, wherever it stands in the list.
pub dump_data_large :
    (device_info : Map ℕ LldpSender) (request_id : ℕ) (m : NeighbourList)
    → is_large m ≡ true
    → dump_data device_info request_id m ≡ none
unfolding dump_data
dump_data_large device_info rid m h = rw (dump_chassis_large device_info 0 0 m h) refl
