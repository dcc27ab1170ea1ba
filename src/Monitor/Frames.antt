-- ===== src/Monitor/Frames.antt =====
-- lldpFrameParser of source/src/lldp_monitor.cc, the callback of the monitor's socket.
pub mod Stored
use link_layer_discovery.Base.{ℕ, ◌+◌, ◌*◌, ◌/◌, ◌%◌, List, Option, none, some, ◌==◌, if◌then◌else◌}
use link_layer_discovery.Lldp.{af_packet, eth_p_lldp, arphrd_ether, eth_alen}
use link_layer_discovery.Packet.DataUnit
use link_layer_discovery.Packet.DataUnit.{DataUnit}
use link_layer_discovery.Monitor.Entry.{NeighbourEntry, lldpdu_to_neighbour_entry}
use link_layer_discovery.Monitor.Neighbours.{NeighbourList, store}

-- The fields of sockaddr_ll that are read. `sll_protocol` is the number that `ntohs` makes of it.
pub record SockaddrLl : Type 0 where
  pub sll_family : ℕ
  pub sll_protocol : ℕ
  pub sll_ifindex : ℕ
  pub sll_hatype : ℕ
  pub sll_halen : ℕ

-- The frame is ignored, the neighbour of the entry is stored, or the behaviour is undefined.
pub data Outcome : Type 0 where
  ignored : Outcome
  stored : NeighbourEntry → Outcome
  undefined : Outcome

unfoldable pub entry_outcome : Option NeighbourEntry → Outcome
entry_outcome none = undefined
entry_outcome (some e) = stored e

parse_unit : ℕ → Option DataUnit → Outcome
unfolding entry_outcome
parse_unit if_index none = ignored
parse_unit if_index (some d) = entry_outcome (lldpdu_to_neighbour_entry d if_index)

-- The tests of the address, and the parsing.
unfoldable pub read_frame : SockaddrLl → List ℕ → Outcome
unfolding parse_unit
read_frame address frame =
    if address.sll_family == af_packet
    then if address.sll_protocol == eth_p_lldp
      then if address.sll_hatype == arphrd_ether
        then if address.sll_halen == eth_alen
          then parse_unit address.sll_ifindex (DataUnit.from_span frame)
          else ignored
        else ignored
      else ignored
    else ignored

keep : NeighbourList → Outcome → Option NeighbourList
keep m ignored = some m
keep m (stored e) = some (store m e.chassis_id e.port_id e)
keep m undefined = none

-- lldpFrameParser: `none` stands for undefined behaviour.
unfoldable pub lldp_frame_parser : NeighbourList → SockaddrLl → List ℕ → Option NeighbourList
unfolding keep
lldp_frame_parser m address frame = keep m (read_frame address frame)
