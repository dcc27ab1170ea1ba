-- ===== src/Server.antt =====
-- The server: ClockHandler of source/src/clock_handler.cc, and the loop of source/src/server_main.cc over the
-- events of the clock, the monitor and the netlink sockets.
pub mod Rounds
pub mod Clock
pub mod Run
pub mod Main
pub mod Shutdown
pub mod Startup
pub mod Creation
pub mod Program
pub mod Dump
use link_layer_discovery.Base.{
  ℕ, suc, ◌-◌, ltb, ◌==◌, Bool, List, [], ◌∷◌, Option, none, some, if◌then◌else◌,
}
use link_layer_discovery.Monitor.Neighbours
use link_layer_discovery.Monitor.Neighbours.{NeighbourList}
use link_layer_discovery.Monitor.Frames.{SockaddrLl, lldp_frame_parser}
use link_layer_discovery.DeviceRepository.{World}
use link_layer_discovery.DeviceRepository.Run as Local
use Local.{tick_local}

-- The neighbours, the local side, the two fields of the clock handler, and how often DumpInfo ran.
pub record Server : Type 0 where
  pub neighbour_list : NeighbourList
  pub world : World
  pub dumping_enabled : Bool
  pub dump_timer : ℕ  -- uint16_t
  pub dumps : ℕ

-- How `read` of the timer ends: with the number of times it was triggered, or with an error.
pub data Reading : Type 0 where
  triggered : ℕ → Reading
  failed : Reading

-- DUMP_INFO_TIMEOUT
abbrev pub dump_info_timeout : ℕ
dump_info_timeout = 5

-- The end of Call.
unfoldable pub count_dump : ℕ → Server → Server
count_dump times s =
    if s.dumping_enabled
    then if ltb times s.dump_timer
      then record s { dump_timer = s.dump_timer - times }
      else record s { dump_timer = dump_info_timeout; dumps = suc s.dumps }
    else s

-- ClockHandler::Call
unfoldable pub call : Reading → Server → Server
call failed s = s
call (triggered times) s =
    if times == 0
    then s
    else count_dump times (record s {
      neighbour_list = Neighbours.tick s.neighbour_list times;
      world = tick_local times s.world;
    })

-- What wakes the server.
pub data Event : Type 0 where
  clock : Reading → Event
  frame : SockaddrLl → List ℕ → Event
  netlink : Local.Event → Event

with_neighbours : Server → Option NeighbourList → Option Server
with_neighbours s none = none
with_neighbours s (some m) = some (record s { neighbour_list = m })

-- The handler of an event: `none` is undefined behaviour.
unfoldable pub handle : Event → Server → Option Server
unfolding with_neighbours
handle (clock r) s = some (call r s)
handle (frame a bytes) s = with_neighbours s (lldp_frame_parser s.neighbour_list a bytes)
handle (netlink e) s = some (record s { world = Local.handle e s.world })

and_then : (Server → Option Server) → Option Server → Option Server
and_then f none = none
and_then f (some s) = f s

unfoldable pub run : List Event → Server → Option Server
unfolding and_then
run [] s = some s
run (e ∷ l) s = and_then (λ s'. run l s') (handle e s)
