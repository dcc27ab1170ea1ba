-- ===== src/Monitor/Frames/Stored.antt =====
-- What lldpFrameParser of source/src/lldp_monitor.cc does to the neighbour list.
use link_layer_discovery.Base.{
  ℕ, ◌≤◌, ◌<◌, ◌≡◌, ◌≢◌, refl, List, none, some, arith, length, ◌&&◌, if◌then◌else◌, inl, inr, ◌⊎◌,
  subst,
}
use link_layer_discovery.Base.Words.{u16}
use link_layer_discovery.Base.Key.{bytes_beq}
use link_layer_discovery.Lldp.{af_packet, eth_p_lldp, arphrd_ether, eth_alen}
use link_layer_discovery.Packet.DataUnit
use link_layer_discovery.Packet.DataUnit.{DataUnit}
use link_layer_discovery.Monitor.Entry.{NeighbourEntry, ttl_of, lldpdu_to_neighbour_entry}
use link_layer_discovery.Monitor.Entry.Shape.{ttl_of-some, entry_shape, entry_undefined}
use link_layer_discovery.Monitor.Neighbours.{NeighbourList, store}
use link_layer_discovery.Monitor.Neighbours.Lookup.{
  neighbour, IsValid, neighbour-store, store-IsValid,
}
use link_layer_discovery.Monitor.Frames.{
  SockaddrLl, Outcome, ignored, stored, undefined, entry_outcome, read_frame, keep,
  lldp_frame_parser,
}

-- The address is one that the parser accepts.
pub record IsLldpAddress (a : SockaddrLl) : Type 0 where
  pub family : a.sll_family ≡ af_packet
  pub protocol : a.sll_protocol ≡ eth_p_lldp
  pub hatype : a.sll_hatype ≡ arphrd_ether
  pub halen : a.sll_halen ≡ eth_alen

pub read_frame_accepted :
    (a : SockaddrLl) (frame : List ℕ) (d : DataUnit)
    → IsLldpAddress a
    → DataUnit.from_span frame ≡ some d
    → read_frame a frame ≡ entry_outcome (lldpdu_to_neighbour_entry d a.sll_ifindex)
unfolding read_frame
read_frame_accepted a frame d h parsed = ground arith

-- An accepted frame whose time to live has two bytes at least is stored under its chassis and port,
-- with its time to live and the receiving interface, and every other neighbour stays as it was.
pub neighbour-lldp_frame_parser :
    (m : NeighbourList) (a : SockaddrLl) (frame : List ℕ) (d : DataUnit) (c p : List ℕ)
    → IsLldpAddress a
    → DataUnit.from_span frame ≡ some d
    → 2 ≤ length d.time_to_live.value
    → (m' : NeighbourList) × (e : NeighbourEntry) × (lldp_frame_parser m a frame ≡ some m')
      × (ttl_of d.time_to_live.value ≡ some e.time_to_live)
      × (e.interface_index ≡ u16 a.sll_ifindex)
      × (neighbour m' c p ≡ (
          if bytes_beq c d.chassis_id.value && bytes_beq p d.port_id.value
          then some e
          else neighbour m c p))
unfolding lldp_frame_parser entry_outcome
neighbour-lldp_frame_parser m a frame d c p h parsed long =
    let (ttl, t) = ttl_of-some d.time_to_live.value long in
    let (e, made, chassis, port, time, index) = entry_shape d a.sll_ifindex ttl t in
    (
      store m e.chassis_id e.port_id e,
      e,
      rw (read_frame_accepted a frame d h parsed, made) refl,
      ground arith,
      index,
      ground (arith, neighbour-store m e.chassis_id e.port_id c p e),
    )

-- A frame from another family, protocol or hardware, or one that does not parse, changes nothing.
pub lldp_frame_parser_ignored :
    (m : NeighbourList) (a : SockaddrLl) (frame : List ℕ)
    → (¬ IsLldpAddress a) ⊎ (DataUnit.from_span frame ≡ none)
    → lldp_frame_parser m a frame ≡ some m
unfolding lldp_frame_parser read_frame
lldp_frame_parser_ignored m a frame (inl other) = ground (
  arith,
  λ (family : a.sll_family ≡ 17) (protocol : a.sll_protocol ≡ 0x88cc) (hatype : a.sll_hatype ≡ 1)
        (halen : a.sll_halen ≡ 6).
      other (record { family = family; protocol = protocol; hatype = hatype; halen = halen }),
)
lldp_frame_parser_ignored m a frame (inr bad) = ground arith

-- Where the neighbour list is in order and no chassis is without a port, it is so after the parser has
-- taken a frame, whatever the frame, if its behaviour is defined.
pub lldp_frame_parser-IsValid :
    (m : NeighbourList) (a : SockaddrLl) (frame : List ℕ) {m' : NeighbourList}
    → IsValid m
    → lldp_frame_parser m a frame ≡ some m'
    → IsValid m'
unfolding lldp_frame_parser
lldp_frame_parser-IsValid m a frame v e = keep_cases (read_frame a frame) e
  where
    keep_cases : (o : Outcome) {m' : NeighbourList} → keep m o ≡ some m' → IsValid m'
    keep_cases ignored {m' = n} q = let same : m ≡ n = cc in subst IsValid same v
    keep_cases (stored x) {m' = n} q =
        let same : store m x.chassis_id x.port_id x ≡ n = cc in
        subst IsValid same (store-IsValid m x.chassis_id x.port_id x v)
    keep_cases undefined q = cc

-- An accepted frame whose time-to-live TLV has less than two bytes is not rejected: the parser
-- reads past the end of that TLV.
pub lldp_frame_parser_undefined :
    (m : NeighbourList) (a : SockaddrLl) (frame : List ℕ) (d : DataUnit)
    → IsLldpAddress a
    → DataUnit.from_span frame ≡ some d
    → length d.time_to_live.value < 2
    → lldp_frame_parser m a frame ≡ none
unfolding lldp_frame_parser entry_outcome
lldp_frame_parser_undefined m a frame d h parsed short =
    ground (arith, read_frame_accepted a frame d h parsed, entry_undefined d a.sll_ifindex short)

keep_defined :
    (m : NeighbourList) (o : Outcome) → o ≢ undefined → (m' : NeighbourList) × (keep m o ≡ some m')
unfolding keep
keep_defined m ignored h = (m, refl)
keep_defined m (stored e) h = (store m e.chassis_id e.port_id e, refl)
keep_defined m undefined h = absurd (h refl)

-- A frame that is ignored or yields an entry is taken whatever the list is.
pub lldp_frame_parser_defined :
    (m : NeighbourList) (a : SockaddrLl) (frame : List ℕ)
    → read_frame a frame ≢ undefined
    → (m' : NeighbourList) × (lldp_frame_parser m a frame ≡ some m')
unfolding lldp_frame_parser
lldp_frame_parser_defined m a frame h = keep_defined m (read_frame a frame) h
