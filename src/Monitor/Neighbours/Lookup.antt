-- ===== src/Monitor/Neighbours/Lookup.antt =====
-- The neighbour list as a function of chassis and port, and its invariant.
use link_layer_discovery.Base.{
  ℕ, ◌≡◌, refl, true, false, List, [], ◌∷◌, Option, none, some, arith, is_empty, ◌&&◌,
  if◌then◌else◌, Bool-cases, inl, inr,
}
use link_layer_discovery.Base.Key.{bytes_key, bytes_beq, bytes_beq_iff}
use link_layer_discovery.Base.Map.{
  lookup, insert, erase, IsAscending, lookup-insert, lookup-erase, insert-IsAscending,
  erase-IsAscending, erase-insert_self,
}
use link_layer_discovery.Monitor.Entry.{NeighbourEntry}
use link_layer_discovery.Monitor.Neighbours.{PortMap, NeighbourList, port_map, store, expire}

-- The entry of a neighbour, if there is one.
unfoldable pub neighbour : NeighbourList → List ℕ → List ℕ → Option NeighbourEntry
unfolding port_map
neighbour m c p = lookup p (port_map c m)

-- The port maps ascend, and none is empty.
abbrev pub EachPorts : NeighbourList → Type 0
EachPorts [] = Unit {0}
EachPorts ((c, ports) ∷ m) = IsAscending ports × (is_empty ports ≡ false) × EachPorts m

pub record IsValid (m : NeighbourList) : Type 0 where
  pub ascending : IsAscending m
  pub each : EachPorts m

insert-EachPorts :
    (c : List ℕ) (ports : PortMap) (m : NeighbourList)
    → IsAscending ports
    → is_empty ports ≡ false
    → EachPorts m
    → EachPorts (insert c ports m)
unfolding insert
insert-EachPorts c ports [] s n h = (s, n, tt)
insert-EachPorts c ports ((j, w) ∷ m) s n h = ground (arith, insert-EachPorts c ports m s n h.2)

erase-EachPorts : (c : List ℕ) (m : NeighbourList) → EachPorts m → EachPorts (erase c m)
unfolding erase
erase-EachPorts c [] h = tt
erase-EachPorts c ((j, w) ∷ m) h = ground (arith, erase-EachPorts c m h.2)

port_map-IsAscending : (c : List ℕ) (m : NeighbourList) → EachPorts m → IsAscending (port_map c m)
unfolding port_map lookup
port_map-IsAscending c [] h = tt
port_map-IsAscending c ((j, w) ∷ m) h = ground (arith, port_map-IsAscending c m h.2)

insert-nonempty :
    (p : List ℕ) (e : NeighbourEntry) (ports : PortMap) → is_empty (insert p e ports) ≡ false
unfolding insert
insert-nonempty p e [] = refl
insert-nonempty p e ((j, w) ∷ ports) = ground arith

-- Storing an entry keeps the invariant.
pub store-IsValid :
    (m : NeighbourList) (c p : List ℕ) (e : NeighbourEntry) → IsValid m → IsValid (store m c p e)
unfolding store
store-IsValid m c p e v = record {
  ascending = insert-IsAscending c (insert p e (port_map c m)) m v.ascending;
  each =
      insert-EachPorts c (insert p e (port_map c m)) m
        (insert-IsAscending p e (port_map c m) (port_map-IsAscending c m v.each))
        (insert-nonempty p e (port_map c m)) v.each;
}

-- After a store the entry stands at its chassis and port, and every other neighbour is as before.
pub neighbour-store :
    (m : NeighbourList) (c p c' p' : List ℕ) (e : NeighbourEntry)
    → neighbour (store m c p e) c' p'
      ≡ (if bytes_beq c' c && bytes_beq p' p then some e else neighbour m c' p')
unfolding neighbour store
neighbour-store m c p c' p' e = ground (
  arith,
  bytes_beq_iff c' c,
  lookup-insert c c' (insert p e (port_map c m)) m,
  lookup-insert p p' e (port_map c m),
)

lookup_of_empty : (p : List ℕ) (ports : PortMap) → is_empty ports ≡ true → lookup p ports ≡ none
unfolding lookup
lookup_of_empty p [] h = refl
lookup_of_empty p (x ∷ ports) h = cc

-- One expiry drops one neighbour and no other.
pub neighbour-expire :
    (m : NeighbourList) (c p c' p' : List ℕ)
    → neighbour (expire m (c, p)) c' p'
      ≡ (if bytes_beq c' c && bytes_beq p' p then none else neighbour m c' p')
unfolding neighbour expire lookup
neighbour-expire m c p c' p' =
    let left = erase p (port_map c m) in
    ground (
      arith,
      bytes_beq_iff c' c,
      lookup_of_empty p' left,
      lookup-erase p p' (port_map c m),
      lookup-insert c c' left m,
      lookup-erase c c' (insert c left m),
    )

pub expire-IsValid : (m : NeighbourList) (c p : List ℕ) → IsValid m → IsValid (expire m (c, p))
unfolding expire
expire-IsValid m c p v = elim (Bool-cases (is_empty (erase p (port_map c m)))) [
  | inl e ↦
      rw (e, expire, erase-insert_self)
        (record {
          ascending = erase-IsAscending c m v.ascending;
          each = erase-EachPorts c m v.each;
        })
  | inr e ↦
      rw (e, expire)
        (record {
          ascending = insert-IsAscending c _ m v.ascending;
          each =
              insert-EachPorts c _ m
                (erase-IsAscending p (port_map c m) (port_map-IsAscending c m v.each)) e v.each;
        })
]
