-- ===== src/Tests/Hosting.antt =====
-- Descriptors, handlers and client sockets.
use link_layer_discovery.Base.{
  ℕ, [], ◌∷◌, Option, none, some, ◌≡◌, refl, arith, true, false, length, has_value,
}
use link_layer_discovery.Base.Ints.{pos}
use link_layer_discovery.Base.Key.{nat_key}
use link_layer_discovery.Base.Map.{lookup}
use link_layer_discovery.Descriptor.{State, open_descriptor, construct, move_construct, destroy}
use link_layer_discovery.Descriptor.Ownership.{IsOwned}
use link_layer_discovery.Descriptor.Lifetime.{
  Run, made, moved, destroyed, go, stay, initial, run-initial,
}
use link_layer_discovery.Events.{World, Handler, events_of, add, create_handler, leave_old}
use link_layer_discovery.Events.Links.{IsLinked}
use link_layer_discovery.Events.Adding.{IsNew, IsReady, left_by}
use link_layer_discovery.Events.Expired.{alive_only, lookup-remove_expired}
use link_layer_discovery.Events.Process.{remove_expired}
use link_layer_discovery.Client.Sockets.{ClientRepository, call_repository}
use link_layer_discovery.Client.Sockets.Swept.{still_open, call_repository_sockets}
use link_layer_discovery.Client.Sockets.Listening.{HasIds}

-- A descriptor that is opened, moved, and closed with its new owner.
abbrev opened : State
opened = construct 0 (pos 3) initial

abbrev taken : State
taken = move_construct 1 0 opened

new_object : (opened.objects 1 ≡ none) × (has_value (opened.objects 0) ≡ true)
unfolding construct open_descriptor
new_object = (refl, refl)

old_object : has_value (taken.objects 1) ≡ true
unfolding construct move_construct open_descriptor
old_object = refl

abbrev lifetime : Run initial (destroy 1 taken)
lifetime = go initial opened (destroy 1 taken) (made 0 (pos 3) initial refl refl) (
    go opened taken (destroy 1 taken) (moved 1 0 opened new_object.0 new_object.1) (
      go taken (destroy 1 taken) (destroy 1 taken) (destroyed 1 taken old_object)
        (stay (destroy 1 taken))))

run-initial_example : IsOwned (destroy 1 taken)
run-initial_example = run-initial (destroy 1 taken) lifetime

-- No handlers, and epoll always answers alike.
abbrev empty_world : Option ℕ → World
empty_world answer = record {
  managers = λ m. record { registered_events = []; event_id_counter = 1 };
  handlers = λ h. none;
  answer = λ n. answer;
  calls = [];
}

empty_world-IsLinked : (answer : Option ℕ) → IsLinked (empty_world answer)
unfolding lookup
empty_world-IsLinked answer = record {
  linked = λ m id h d at alive. absurd (ground (arith, at));
  registered = λ h m d alive at. absurd (ground (arith, alive));
  no_zero = λ m. refl;
}

empty_world-IsNew : (answer : Option ℕ) → IsNew 5 (empty_world answer)
unfolding lookup
empty_world-IsNew answer = record { unused = refl; unregistered = λ m id e. ground (arith, e) }

abbrev handler : Handler
handler = record { event_manager = none; handle = 0; socket = pos 7; events = 1 }

abbrev with_handler : World
with_handler = create_handler 5 (pos 7) 1 (empty_world none)

handler-IsReady : IsReady 0 5 handler (left_by handler with_handler)
unfolding create_handler leave_old
handler-IsReady = record {
  before = handler;
  there = refl;
  outside = refl;
  positive = omega arith;
  bounded = omega arith;
}

handler_there : with_handler.handlers 5 ≡ some handler
unfolding create_handler
handler_there = refl

abbrev joined_world : World
joined_world = (add 0 5 handler with_handler).1

good_answer :
    (left_by handler with_handler).answer (length (left_by handler with_handler).calls) ≡ none
unfolding create_handler leave_old
good_answer = refl

-- Two events, both handlers gone.
abbrev expired_world : World
expired_world = record (empty_world none) {
  managers = λ m. record { registered_events = (1, 5) ∷ (2, 6) ∷ []; event_id_counter = 3 };
}

lookup-remove_expired_example :
    lookup 2 (events_of 0 (remove_expired 0 expired_world))
    ≡ alive_only expired_world (lookup 2 (events_of 0 expired_world))
lookup-remove_expired_example = lookup-remove_expired 0 2 expired_world ((refl, tt), (tt, tt))

abbrev clients : Option ℕ → ClientRepository
clients answer = record {
  transport_sockets =
      record { handler = 8; eof_received = true }
      ∷ record { handler = 9; eof_received = false }
      ∷ [];
  manager = 0;
  world = empty_world answer;
}

call_repository_sockets_example :
    ((call_repository (clients none)).transport_sockets
      ≡ still_open (clients none).transport_sockets)
    × IsLinked (call_repository (clients none)).world
call_repository_sockets_example = call_repository_sockets (clients none) (empty_world-IsLinked none)

has_ids : HasIds 0 (empty_world none)
has_ids = record { positive = omega arith; bounded = omega arith }
