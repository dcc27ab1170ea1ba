-- ===== src/Tests/Starting.antt =====
-- How the server makes its parts.
use link_layer_discovery.Base.{
  ℕ, ◌+◌, ◌==◌, ◌≡◌, refl, true, false, List, [], ◌∷◌, Option, none, some, arith, length, All, ltb,
  if◌then◌else◌,
}
use link_layer_discovery.Base.Ints.{ℤ, pos, negsuc}
use link_layer_discovery.Client.Listen.{Paths}
use link_layer_discovery.Events.{World, Handler, create_handler, add}
use link_layer_discovery.Events.Links.{IsLinked}
use link_layer_discovery.Server.Shutdown.{JoinedTo, shut_down}
use link_layer_discovery.Server.Startup.{IsUnjoined}
use link_layer_discovery.Server.Creation.{Machine, create_lldp_repository}
use link_layer_discovery.Server.Creation.Repositories.{Left, create_lldp_repository-Left}
use link_layer_discovery.Server.Program.{Running, start_program}
use link_layer_discovery.Server.Program.Equipped.{Descriptors, given}
use link_layer_discovery.Server.Program.Boot.{unstarted, unstarted-Fits, LocalJoined}
use link_layer_discovery.Server.Program.Life.{after_loop, start_program-after_loop}
use link_layer_discovery.Server.Creation.Sockets.{Fits, create_handler-Fits, add-Fits}
use link_layer_discovery.Server.Rounds.{Hub, hub_world, process_rounds}
use link_layer_discovery.Server.Rounds.Sockets.{wakes}
use link_layer_discovery.Server.Rounds.Linked.{process_rounds-IsLinked}
use link_layer_discovery.Tests.{neighbours}
use link_layer_discovery.Tests.Clients.{device_info}

-- The third attempt to open a socket fails.
abbrev third_fails : Machine
third_fails = record (unstarted (λ n. n + 10)) {
  sockets = λ n.
      if ltb n 2
      then record { fd = pos (n + 10); set_up = true }
      else record { fd = negsuc 0; set_up = false };
}

create_lldp_repository-Left_example : Left 0 5 third_fails (create_lldp_repository 0 third_fails)
create_lldp_repository-Left_example =
    create_lldp_repository-Left 0 5 third_fails (unstarted-Fits 0 8 (λ n. n + 10) (omega arith))

abbrev descriptors : Descriptors
descriptors = record {
  epoll = 3;
  monitor = 4;
  notify = 5;
  lock = 6;
  listener = 7;
  clock = 8;
  signal = 9;
}

abbrev paths : Paths
paths = record { socket_path = 115 ∷ []; lock_path = 108 ∷ [] }

-- A client connects, sends a request, goes, and the repository drops its socket; then a signal.
abbrev rounds : List (Option (List ℕ))
rounds = some (7 ∷ []) ∷ some (9 ∷ []) ∷ none ∷ some (9 ∷ 6 ∷ []) ∷ some (8 ∷ []) ∷ []

abbrev accepts : ℕ → ℤ
accepts n = if n == 0 then pos 20 else negsuc 0

abbrev receives : ℕ → ℤ × ℕ
receives n = if n == 0 then (pos 2, 1) else (pos 0, 0)

start_program-after_loop_example :
    (r : Running) × (start_program 0 (given descriptors) paths (unstarted (λ n. n + 10)) ≡ some r)
    × let w = after_loop (λ n. device_info) (λ n. neighbours) 0 accepts receives rounds r in
      IsLinked w
      × All (JoinedTo 0 w) r.handlers
      × LocalJoined 0 r.lldp w
      × ((v : World) × (shut_down 0 r.handlers w ≡ some v)
          × All (IsUnjoined v) r.handlers
          × LocalJoined 0 r.lldp v)
start_program-after_loop_example =
    start_program-after_loop (λ n. device_info) (λ n. neighbours) 0 descriptors (λ n. n + 10) paths
      accepts receives rounds (omega arith)

-- The listener alone, as the object 0 of the manager 3; its event has the id 1.
abbrev listener : Handler
listener = record { event_manager = none; handle = 0; socket = pos 5; events = 1 }

abbrev with_listener : World
with_listener = create_handler 0 (pos 5) 1 (unstarted (λ n. n)).world

abbrev hub : Hub
hub = record {
  clients = record {
    transport_sockets = [];
    manager = 3;
    world = (add 3 0 listener with_listener).1;
  };
  next_object = 1;
  accepts = accepts;
  accepted = 0;
  receives = receives;
  received = 0;
  replies = [];
}

-- A client connects, and sends a request.
abbrev two_rounds : List (Option (List ℕ))
two_rounds = some (1 ∷ []) ∷ some (2 ∷ 1 ∷ []) ∷ []

listener_there : with_listener.handlers 0 ≡ some listener
unfolding create_handler
listener_there = refl

epoll_takes : with_listener.answer (length with_listener.calls) ≡ none
unfolding create_handler
epoll_takes = refl

hub-Fits : Fits 3 (wakes two_rounds) 1 (hub_world hub)
hub-Fits = add-Fits 3 0 listener with_listener listener_there refl epoll_takes (
    create_handler-Fits 3 4 0 1 (pos 5) (unstarted (λ n. n)).world
      (unstarted-Fits 3 4 (λ n. n) (omega arith)))

process_rounds-IsLinked_example :
    IsLinked (hub_world (process_rounds (λ n. device_info) (λ n. neighbours) 3 0 9 two_rounds hub))
process_rounds-IsLinked_example =
    process_rounds-IsLinked (λ n. device_info) (λ n. neighbours) 0 9 two_rounds hub hub-Fits
