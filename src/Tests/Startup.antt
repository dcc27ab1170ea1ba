-- ===== src/Tests/Startup.antt =====
-- The readers as objects, the two programs, and how they start.
use link_layer_discovery.Base.Map.{lookup}
use link_layer_discovery.Base.Key.{nat_key}
use link_layer_discovery.Events
use link_layer_discovery.Events.Links.{IsLinked}
use link_layer_discovery.Client.Sockets.{new_handler}
use link_layer_discovery.Server.Startup.{HasRoom}
use link_layer_discovery.Base.{
  ◌==◌, ◌++◌, List, [], ◌∷◌, none, some, ◌≡◌, refl, arith, true, false, if◌then◌else◌,
}
use link_layer_discovery.Base.Ints.{pos}
use link_layer_discovery.Base.Key.{nat_key}
use link_layer_discovery.Netlink.Reader.Wiring
use link_layer_discovery.Netlink.Reader.Wiring.{Wires, holding}
use link_layer_discovery.Netlink.Reader.Wiring.Bound.{IsBound, move_assign_ip-callbacks}
use link_layer_discovery.Netlink.Reader.Wiring.Lifetime as Reader
use link_layer_discovery.Client.Main.{
  Choice, continuous, timeout, other, chosen, default_options, parse_args, write_all,
  parse_args-write_all,
}
use link_layer_discovery.Server.{Event, clock, run}
use link_layer_discovery.Server
use link_layer_discovery.Server.Main.{
  Wake, event, signal, started, server_of, main_loop, until_interrupt, main_loop-run,
}
use link_layer_discovery.Client.Listen.{
  Answers, Paths, create, held, all_opened, create-closes, failed, create_locked,
}
use link_layer_discovery.Descriptor.Deleting.{Calls}
use link_layer_discovery.Tests.Serving.{server}

-- A signal in the first round, and a clock event in the second.
abbrev rounds : List (List Wake)
rounds = (signal (pos 128) ∷ []) ∷ (event (clock (Server.triggered 1)) ∷ []) ∷ []

main_loop-run_example :
    server_of (main_loop rounds (started server)) ≡ run (until_interrupt false rounds) server
main_loop-run_example = main_loop-run rounds server

-- client -t -c -c
abbrev choices : List Choice
choices = other (99 ∷ []) ∷ timeout (45 ∷ 99 ∷ []) ∷ continuous ∷ []

parse_args-write_all_example :
    parse_args (write_all choices) default_options ≡ chosen choices default_options
parse_args-write_all_example =
    parse_args-write_all choices default_options
      ((λ e. ground (arith, e), λ e. ground (arith, e)), (tt, (tt, tt)))

-- A reader that is made, and then moved.
abbrev no_readers : Wires
no_readers = record { readers = λ i. none; callbacks = λ s. none }

no_readers-IsBound : IsBound no_readers
no_readers-IsBound = record {
  bound = λ i s r at has. absurd (ground (arith, at));
  alive = λ i s calls. absurd (ground (arith, calls));
}

abbrev one_reader : Wires
one_reader = Wiring.construct 0 9 no_readers

abbrev moved_reader : Wires
moved_reader = Wiring.move_construct 1 0 (holding 9) one_reader

reader_there : (one_reader.readers 1 ≡ none) × (one_reader.readers 0 ≡ some (holding 9))
unfolding Wiring.construct
reader_there = (refl, refl)

abbrev reader_run : Reader.Run no_readers moved_reader
reader_run = Reader.go no_readers one_reader moved_reader (Reader.made 0 9 no_readers refl refl) (
    Reader.go one_reader moved_reader moved_reader
      (Reader.moved 1 0 (holding 9) one_reader reader_there.0 reader_there.1)
      (Reader.stay moved_reader))

run-IsBound_example : IsBound moved_reader
run-IsBound_example = Reader.run-IsBound no_readers moved_reader reader_run no_readers-IsBound

-- Two readers, with a socket each.
abbrev two_readers : Wires
two_readers = record {
  readers = λ i. if i == 0 then some (holding 8) else if i == 1 then some (holding 9) else none;
  callbacks = λ s. if s == 8 then some 0 else if s == 9 then some 1 else none;
}

two_readers-IsBound : IsBound two_readers
two_readers-IsBound = record {
  bound = λ i s r at has. ground (arith, at, has);
  alive = λ i s calls. (holding s, ground (arith, calls), refl);
}

move_assign_ip-callbacks_example :
    ((Wiring.move_assign_ip 0 (holding 8) 1 (holding 9) two_readers).callbacks 9 ≡ some 1)
    × ((Wiring.move_assign_ip 0 (holding 8) 1 (holding 9) two_readers).readers 1
        ≡ some Wiring.empty)
    × ((Wiring.move_assign_ip 0 (holding 8) 1 (holding 9) two_readers).readers 0 ≡ some (holding 9))
move_assign_ip-callbacks_example =
    move_assign_ip-callbacks 0 1 9 (holding 8) (holding 9) two_readers
      (λ e. absurd (omega (arith, e))) refl refl refl two_readers-IsBound

-- The lock is free, and `bind` fails; and the lock is taken.
abbrev unbound : Answers
unbound = record {
  lock_fd = pos 3;
  locked = true;
  socket_fd = pos 4;
  bound = false;
  listening = true;
}

abbrev second_server : Answers
second_server = record unbound { locked = false }

abbrev paths : Paths
paths = record { socket_path = 115 ∷ []; lock_path = 108 ∷ [] }

abbrev no_closes : Calls
no_closes = record { closed = []; unlinked = [] }

create-closes_example :
    held (create unbound paths no_closes).0 ++ (create unbound paths no_closes).1.closed
    ≡ all_opened unbound ++ []
create-closes_example = create-closes unbound paths no_closes

create_locked_example :
    ((create second_server paths no_closes).0 ≡ failed)
    × ((create second_server paths no_closes).1.unlinked ≡ (108 ∷ []) ∷ [])
create_locked_example = create_locked second_server paths no_closes 3 refl refl

-- Two new handlers, and no events.
abbrev new_handlers : Events.World
new_handlers = record {
  managers = λ m. record { registered_events = []; event_id_counter = 1 };
  handlers = λ h.
      if h == 5
      then some (new_handler (pos 7))
      else if h == 6
      then some (new_handler (pos 8))
      else none;
  answer = λ n. none;
  calls = [];
}

new_handlers-IsLinked : IsLinked new_handlers
unfolding lookup
new_handlers-IsLinked = record {
  linked = λ m id h d at alive. absurd (ground (arith, at));
  registered = λ h m d alive to. absurd (ground (arith, alive, to));
  no_zero = λ m. refl;
}

new_handlers-HasRoom : HasRoom 0 2 new_handlers
unfolding lookup
new_handlers-HasRoom = record {
  above = λ q le. refl;
  positive = omega arith;
  bounded = omega arith;
}
