-- ===== src/Server/Run.antt =====
-- The server over any sequence of events.
use link_layer_discovery.Base.{
  zero, suc, ◌≡◌, ◌≢◌, refl, sym, arith, subst, List, [], ◌∷◌, some, All,
}
use link_layer_discovery.Monitor.Neighbours.Lookup.{IsValid}
use link_layer_discovery.Monitor.Neighbours.Tick.{tick-IsValid}
use link_layer_discovery.Monitor.Frames.{undefined, read_frame}
use link_layer_discovery.Monitor.Frames.Stored.{
  lldp_frame_parser-IsValid, lldp_frame_parser_defined,
}
use link_layer_discovery.DeviceRepository.Run.Kept.{IsCovered, tick_local-Keeps, handle-Keeps}
use link_layer_discovery.Server.{
  Server, Reading, triggered, failed, call, Event, clock, frame, netlink, handle, run,
}
use link_layer_discovery.Server.Clock.{call-lists}

-- The invariants of the neighbours and of the local side.
pub record IsSound (s : Server) : Type 0 where
  pub neighbours : IsValid s.neighbour_list
  pub local : IsCovered s.world

-- A frame is not one that makes the parser read past a TLV.
abbrev pub IsReadable : Event → Type 0
IsReadable (clock r) = Unit {0}
IsReadable (frame a bytes) = read_frame a bytes ≢ undefined
IsReadable (netlink e) = Unit {0}

call-IsSound : (r : Reading) (s : Server) → IsSound s → IsSound (call r s)
unfolding call
call-IsSound failed s v = v
call-IsSound (triggered zero) s v = v
call-IsSound (triggered (suc n)) s v =
    let lists = call-lists (suc n) s (ground arith) in
    record {
      neighbours = subst IsValid (sym lists.0) (tick-IsValid s.neighbour_list (suc n) v.neighbours);
      local = subst IsCovered (sym lists.1) (tick_local-Keeps (suc n) s.world v.local).valid;
    }

handle-IsSound :
    (e : Event) (s : Server)
    → IsReadable e
    → IsSound s
    → (s' : Server) × (handle e s ≡ some s') × IsSound s'
unfolding handle
handle-IsSound (clock r) s h v = (call r s, refl, call-IsSound r s v)
handle-IsSound (netlink e) s h v =
    (_, refl, record { neighbours = v.neighbours; local = (handle-Keeps e s.world v.local).valid })
handle-IsSound (frame a bytes) s h v =
    let (m, e) = lldp_frame_parser_defined s.neighbour_list a bytes h in
    (
      record s { neighbour_list = m },
      rw (e) refl,
      record {
        neighbours = lldp_frame_parser-IsValid s.neighbour_list a bytes v.neighbours e;
        local = v.local;
      },
    )

-- Over any sequence of clock events, netlink packets and received frames, in any order, the server
-- goes on, as long as no frame makes the parser read past a TLV: the neighbour list stays in order with no
-- empty chassis, and every sender has a device.
pub run-IsSound :
    (l : List Event) (s : Server)
    → All IsReadable l
    → IsSound s
    → (s' : Server) × (run l s ≡ some s') × IsSound s'
unfolding run
run-IsSound [] s h v = (s, refl, v)
run-IsSound (e ∷ l) s h v =
    let (s', first, v') = handle-IsSound e s h.0 v in
    let (s'', rest, v'') = run-IsSound l s' h.1 v' in (s'', rw (first, rest) refl, v'')
