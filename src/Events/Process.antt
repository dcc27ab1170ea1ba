-- ===== src/Events/Process.antt =====
-- ProcessEvents and the destructor of EventManager, source/src/event_handlers.cc. What epoll_wait returns and what
-- Call does are parameters.
use link_layer_discovery.Base.{
  ℕ, List, [], ◌∷◌, Option, none, some, take, has_value, if◌then◌else◌, ◌>>=◌,
}
use link_layer_discovery.Base.Key.{nat_key}
use link_layer_discovery.Base.Map.{Map, lookup}
use link_layer_discovery.Events.{World, events_of, remove}

-- The ids whose weak pointers have expired.
unfoldable pub expired_handlers : Map ℕ ℕ → World → List ℕ
expired_handlers [] w = []
expired_handlers ((id, h) ∷ events) w =
    let rest = expired_handlers events w in if has_value (w.handlers h) then rest else id ∷ rest

-- A loop of Remove; an error is only printed.
unfoldable pub remove_each : ℕ → List ℕ → World → World
remove_each m [] w = w
remove_each m (id ∷ ids) w = remove_each m ids (remove m id w).1

abbrev pub remove_expired : ℕ → World → World
remove_expired m w = remove_each m (expired_handlers (events_of m w) w) w

-- The handler that is called for a ready id.
unfoldable pub target : ℕ → ℕ → World → Option ℕ
target m id w = do h ← lookup id (events_of m w); d ← w.handlers h; some h

-- A program keeps the managers and handlers in its own state, and `on_call` is the virtual Call of its handlers:
-- Server.Rounds is the server's.
module _ {S : Type 0} (world : S → World) (with_world : World → S → S) (on_call : ℕ → S → S) where
  call_target : Option ℕ → S → S
  call_target none s = s
  call_target (some h) s = on_call h s

  -- The loop over the ready ids.
  unfoldable pub dispatch : ℕ → List ℕ → S → S
  unfolding call_target
  dispatch m [] s = s
  dispatch m (id ∷ ids) s = dispatch m ids (call_target (target m id (world s)) s)

  -- MAX_CONCURRENT_EVENTS
  abbrev max_concurrent_events : ℕ
  max_concurrent_events = 10

  -- ProcessEvents, with the ids that epoll_wait returns: none where it fails, and ten at most.
  unfoldable pub process_events : ℕ → Option (List ℕ) → S → S
  process_events m none s = with_world (remove_expired m (world s)) s
  process_events m (some ready) s =
      dispatch m (take max_concurrent_events ready) (with_world (remove_expired m (world s)) s)

abbrev pub ids_of : Map ℕ ℕ → List ℕ
ids_of [] = []
ids_of ((id, h) ∷ events) = id ∷ ids_of events

-- ~EventManager
unfoldable pub destroy_manager : ℕ → World → World
destroy_manager m w = remove_each m (ids_of (events_of m w)) w
