-- ===== src/Monitor/Neighbours.antt =====
-- NeighbourList of source/include/lldp_monitor.hh and its Tick in source/src/lldp_monitor.cc.
pub mod Lookup
pub mod Tick
use link_layer_discovery.Base.{
  ℕ, ◌-◌, Bool, List, [], ◌∷◌, ◌++◌, Option, none, some, ltb, is_empty, if◌then◌else◌,
}
use link_layer_discovery.Base.Key.{bytes_key}
use link_layer_discovery.Base.Map.{Map, lookup, insert, erase, map_values}
use link_layer_discovery.Monitor.Entry.{NeighbourEntry}

abbrev pub PortMap : Type 0
PortMap = Map (List ℕ) NeighbourEntry

-- The member `chassis_map`.
abbrev pub NeighbourList : Type 0
NeighbourList = Map (List ℕ) PortMap

-- `chassis_map[c]`, which makes an empty map where there is none.
pub port_map : List ℕ → NeighbourList → PortMap
port_map c m = elim (lookup c m) [ none ↦ [] | some ports ↦ ports ]

-- `chassis_map[c][p] = entry`
unfoldable pub store : NeighbourList → List ℕ → List ℕ → NeighbourEntry → NeighbourList
unfolding port_map
store m c p entry = insert c (insert p entry (port_map c m)) m

-- The body of the first loop on one entry.
pub age : ℕ → NeighbourEntry → NeighbourEntry
age delta e = record e {
  time_to_live = if ltb delta e.time_to_live then e.time_to_live - delta else 0;
}

-- What the first loop puts into `timed_out_entries`, in the order of the iteration.
pub timed_out_ports : ℕ → List ℕ → PortMap → List (List ℕ × List ℕ)
timed_out_ports delta c [] = []
timed_out_ports delta c ((p, e) ∷ ports) =
    let rest = timed_out_ports delta c ports in
    if ltb delta e.time_to_live then rest else (c, p) ∷ rest

pub timed_out : ℕ → NeighbourList → List (List ℕ × List ℕ)
unfolding timed_out_ports
timed_out delta [] = []
timed_out delta ((c, ports) ∷ m) = timed_out_ports delta c ports ++ timed_out delta m

-- What the first loop leaves in the map.
pub aged : ℕ → NeighbourList → NeighbourList
unfolding age
aged delta m = map_values (λ ports. map_values (age delta) ports) m

-- The body of the second loop.
pub expire : NeighbourList → List ℕ × List ℕ → NeighbourList
unfolding port_map
expire m (c, p) =
    let left = erase p (port_map c m) in
    let m' = insert c left m in if is_empty left then erase c m' else m'

pub expire_all : NeighbourList → List (List ℕ × List ℕ) → NeighbourList
unfolding expire
expire_all m [] = m
expire_all m (x ∷ xs) = expire_all (expire m x) xs

-- NeighbourList::Tick
unfoldable pub tick : NeighbourList → ℕ → NeighbourList
unfolding timed_out aged expire_all
tick m delta = expire_all (aged delta m) (timed_out delta m)
