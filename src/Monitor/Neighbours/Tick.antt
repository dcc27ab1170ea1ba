-- ===== src/Monitor/Neighbours/Tick.antt =====
-- What NeighbourList::Tick does, seen as a function of chassis and port.
use mathlib.Core.Option
use link_layer_discovery.Base.{
  ℕ, ◌+◌, ◌-◌, ◌≡◌, refl, Bool, false, not, List, [], ◌∷◌, ◌++◌, Option, none, some, arith, ◌&&◌,
  ◌||◌, ltb, if◌then◌else◌,
}
use link_layer_discovery.Base.Key.{bytes_key, bytes_beq, bytes_beq_iff}
use link_layer_discovery.Base.Map.{
  lookup, map_values, IsAscending, lookup-Above, lookup-map_values, map_values-IsAscending,
}
use link_layer_discovery.Monitor.Entry.{NeighbourEntry}
use link_layer_discovery.Monitor.Neighbours.{
  PortMap, NeighbourList, age, timed_out_ports, timed_out, aged, expire, expire_all, tick,
}
use link_layer_discovery.Monitor.Neighbours.Lookup.{
  neighbour, EachPorts, IsValid, neighbour-expire, expire-IsValid,
}

-- Whether a pair of keys is in the list.
abbrev listed : List ℕ → List ℕ → List (List ℕ × List ℕ) → Bool
listed c p [] = false
listed c p ((c', p') ∷ xs) = (bytes_beq c c' && bytes_beq p p') || listed c p xs

abbrev is_old : ℕ → Option NeighbourEntry → Bool
is_old delta none = false
is_old delta (some e) = not (ltb delta e.time_to_live)

-- The specification: what one neighbour becomes.
abbrev pub survive : ℕ → Option NeighbourEntry → Option NeighbourEntry
survive delta none = none
survive delta (some e) =
    if ltb delta e.time_to_live
    then some (record e { time_to_live = e.time_to_live - delta })
    else none

listed-append :
    (c p : List ℕ) (xs ys : List (List ℕ × List ℕ))
    → listed c p (xs ++ ys) ≡ (listed c p xs || listed c p ys)
listed-append c p [] ys = refl
listed-append c p ((c', p') ∷ xs) ys = ground (arith, listed-append c p xs ys)

listed-timed_out_ports :
    (delta : ℕ) (c c0 p : List ℕ) (ports : PortMap)
    → IsAscending ports
    → listed c p (timed_out_ports delta c0 ports)
      ≡ (bytes_beq c c0 && is_old delta (lookup p ports))
unfolding timed_out_ports lookup
listed-timed_out_ports delta c c0 p [] s = ground arith
listed-timed_out_ports delta c c0 p ((j, e) ∷ ports) s = ground (
  arith,
  bytes_beq_iff p j,
  lookup-Above j ports s.0,
  listed-timed_out_ports delta c c0 p ports s.1,
)

-- The entries that the first loop collects are those that are over.
listed-timed_out :
    (delta : ℕ) (c p : List ℕ) (m : NeighbourList)
    → IsAscending m
    → EachPorts m
    → listed c p (timed_out delta m) ≡ is_old delta (neighbour m c p)
unfolding timed_out neighbour lookup
listed-timed_out delta c p [] s h = refl
listed-timed_out delta c p ((c0, ports) ∷ m) s h = ground (
  arith,
  bytes_beq_iff c c0,
  lookup-Above c0 m s.0,
  listed-append c p (timed_out_ports delta c0 ports) (timed_out delta m),
  listed-timed_out_ports delta c c0 p ports h.0,
  listed-timed_out delta c p m s.1 h.2,
)

neighbour-aged :
    (delta : ℕ) (c p : List ℕ) (m : NeighbourList)
    → neighbour (aged delta m) c p ≡ Option.map (age delta) (neighbour m c p)
unfolding neighbour aged lookup map_values
neighbour-aged delta c p [] = refl
neighbour-aged delta c p ((c0, ports) ∷ m) =
    ground (arith, lookup-map_values (age delta) p ports, neighbour-aged delta c p m)

neighbour-expire_all :
    (c p : List ℕ) (xs : List (List ℕ × List ℕ)) (m : NeighbourList)
    → neighbour (expire_all m xs) c p ≡ (if listed c p xs then none else neighbour m c p)
unfolding expire_all
neighbour-expire_all c p [] m = refl
neighbour-expire_all c p ((c', p') ∷ xs) m =
    ground (arith, neighbour-expire_all c p xs (expire m (c', p')), neighbour-expire m c' p' c p)

-- In a valid list a tick of `delta` seconds takes `delta` from each neighbour that has more than that
-- left, and forgets exactly the others.
pub neighbour-tick :
    (m : NeighbourList) (delta : ℕ) (c p : List ℕ)
    → IsValid m
    → neighbour (tick m delta) c p ≡ survive delta (neighbour m c p)
unfolding tick age
neighbour-tick m delta c p v = ground (
  arith,
  neighbour-expire_all c p (timed_out delta m) (aged delta m),
  neighbour-aged delta c p m,
  listed-timed_out delta c p m v.ascending v.each,
)

aged-EachPorts : (delta : ℕ) (m : NeighbourList) → EachPorts m → EachPorts (aged delta m)
unfolding aged map_values
aged-EachPorts delta [] h = tt
aged-EachPorts delta ((c, []) ∷ m) h = (tt, h.1, aged-EachPorts delta m h.2)
aged-EachPorts delta ((c, x ∷ ports) ∷ m) h =
    (map_values-IsAscending (age delta) (x ∷ ports) h.0, refl, aged-EachPorts delta m h.2)

expire_all-IsValid :
    (xs : List (List ℕ × List ℕ)) (m : NeighbourList) → IsValid m → IsValid (expire_all m xs)
unfolding expire_all
expire_all-IsValid [] m v = v
expire_all-IsValid ((c, p) ∷ xs) m v =
    expire_all-IsValid xs (expire m (c, p)) (expire-IsValid m c p v)

-- Where the neighbour list is in order and no chassis is without a port, it is so after a tick of any
-- number of seconds.
pub tick-IsValid : (m : NeighbourList) (delta : ℕ) → IsValid m → IsValid (tick m delta)
unfolding tick
tick-IsValid m delta v = expire_all-IsValid (timed_out delta m) (aged delta m) (
    unfold aged in
    record {
      ascending = map_values-IsAscending (map_values (age delta)) m v.ascending;
      each = unfold aged in aged-EachPorts delta m v.each;
    })

-- In a valid list two ticks are one tick of the sum of their seconds, for every neighbour.
pub tick-tick :
    (m : NeighbourList) (a b : ℕ) (c p : List ℕ)
    → IsValid m
    → neighbour (tick (tick m a) b) c p ≡ neighbour (tick m (a + b)) c p
tick-tick m a b c p v = ground (
  arith,
  neighbour-tick (tick m a) b c p (tick-IsValid m a v),
  neighbour-tick m a c p v,
  neighbour-tick m (a + b) c p v,
)
