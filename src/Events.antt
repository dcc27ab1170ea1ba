-- ===== src/Events.antt =====
-- EventManager and EventHandler of source/include/event_handlers.hh and source/src/event_handlers.cc.
-- Managers and handlers are numbered objects; a weak pointer is a number, which has expired where
-- no handler stands under it.
pub mod Process
pub mod Links
pub mod Adding
pub mod Expired
pub mod Run
pub mod Move
pub mod HandlerMove
pub mod Unjoined
pub mod Counter
use link_layer_discovery.Base.{
  ℕ, zero, suc, Bool, true, false, List, [], ◌∷◌, Option, none, some, length, take, has_value, ◌==◌,
  ◌&&◌, not, if◌then◌else◌,
}
use link_layer_discovery.Base.Words.{u64}
use link_layer_discovery.Base.Key.{nat_key}
use link_layer_discovery.Base.Map.{Map, lookup, insert, erase}
use link_layer_discovery.Base.Store.{put}
use link_layer_discovery.Base.Ints.{ℤ}

-- EventHandler, with what GetSocket and GetEvents return.
pub record Handler : Type 0 where
  pub event_manager : Option ℕ
  pub handle : ℕ
  pub socket : ℤ
  pub events : ℕ

pub record Manager : Type 0 where
  pub registered_events : Map ℕ ℕ
  pub event_id_counter : ℕ

-- The calls of epoll_ctl on a manager's descriptor.
pub data Ctl : Type 0 where
  ctl_add : ℕ → ℤ → ℕ → ℕ → Ctl
  ctl_del : ℕ → ℤ → Ctl

-- The kernel's part is the answer to the n-th call, which is the error where there is one, and the calls
-- made, the last one first.
pub record World : Type 0 where
  pub managers : ℕ → Manager
  pub handlers : ℕ → Option Handler
  pub answer : ℕ → Option ℕ
  pub calls : List Ctl

-- ENOENT
abbrev pub enoent : ℕ
enoent = 2

abbrev pub events_of : ℕ → World → Map ℕ ℕ
events_of m w = (w.managers m).registered_events

abbrev pub set_manager : ℕ → Manager → World → World
set_manager m manager w = record w { managers = put m manager w.managers }

abbrev pub set_handler : ℕ → Handler → World → World
set_handler h handler w = record w { handlers = put h (some handler) w.handlers }

-- A call of epoll_ctl: its error, and the world with the call logged.
abbrev pub epoll_ctl : Ctl → World → Option ℕ × World
epoll_ctl call w = (w.answer (length w.calls), record w { calls = call ∷ w.calls })

-- `registered_events_.erase(handler_id)`
abbrev pub erase_event : ℕ → ℕ → World → World
erase_event m id w =
    set_manager m (record (w.managers m) { registered_events = erase id (events_of m w) }) w

abbrev pub unlinked : Handler → Handler
unlinked d = record d { event_manager = none; handle = 0 }

-- The error of Remove, where there is one.
after_del : ℕ → ℕ → ℕ → Handler → Option ℕ × World → Option ℕ × World
after_del m id h d (some error, w) = (some error, w)
after_del m id h d (none, w) = (none, erase_event m id (set_handler h (unlinked d) w))

remove_locked : ℕ → ℕ → ℕ → Option Handler → World → Option ℕ × World
remove_locked m id h none w = (none, erase_event m id w)
remove_locked m id h (some d) w = after_del m id h d (epoll_ctl (ctl_del m d.socket) w)

remove_found : ℕ → ℕ → Option ℕ → World → Option ℕ × World
remove_found m id none w = (some enoent, w)
remove_found m id (some h) w = remove_locked m id h (w.handlers h) w

-- Remove(size_t)
unfoldable pub remove : ℕ → ℕ → World → Option ℕ × World
unfolding after_del remove_locked remove_found
remove m id w = remove_found m id (lookup id (events_of m w)) w

is_manager : ℕ → Option ℕ → Bool
is_manager m none = false
is_manager m (some k) = k == m

-- Remove(const std::shared_ptr<EventHandler> &), of a handler `d`.
unfoldable pub remove_handler : ℕ → Handler → World → Option ℕ × World
unfolding is_manager
remove_handler m d w =
    if is_manager m d.event_manager then remove m d.handle w else (some enoent, w)

-- The `while` over the counter. One more than the number of the registered events is enough fuel.
unfoldable pub free_id : ℕ → ℕ → Map ℕ ℕ → ℕ
free_id zero counter events = counter
free_id (suc fuel) counter events =
    let rest = free_id fuel (u64 (suc counter)) events in
    if has_value (lookup counter events) then rest else counter

-- The first step of Add: a handler that has a manager is removed there; an error is only printed.
unfoldable pub leave_old : Option ℕ → ℕ → World → World
leave_old none id w = w
leave_old (some m) id w = if not (id == 0) then (remove m id w).1 else w

-- std::expected<size_t, int>
pub data Added : Type 0 where
  added : ℕ → Added
  failed : ℕ → Added

register : ℕ → ℕ → ℕ → Handler → Option ℕ × World → Added × World
register m h id d (some error, w) = (failed error, w)
register m h id d (none, w) = (
  added id,
  set_handler h (record d { event_manager = some m; handle = id })
      (set_manager m
        (record {
          registered_events = insert id h (events_of m w);
          event_id_counter = u64 (suc id);
        })
        w),
)

abbrev pub next_id : ℕ → World → ℕ
next_id m w = free_id (suc (length (events_of m w))) (w.managers m).event_id_counter (events_of m w)

-- The rest of Add, with the free id.
add_counted : ℕ → ℕ → ℕ → Handler → World → Added × World
add_counted m h id d w = register m h id d (
    epoll_ctl (ctl_add m d.socket d.events id)
      (set_manager m (record (w.managers m) { event_id_counter = id }) w))

-- Add, of a handler `h` that is there as `d`.
unfoldable pub add : ℕ → ℕ → Handler → World → Added × World
unfolding register add_counted
add m h d w =
    let left = leave_old d.event_manager d.handle w in add_counted m h (next_id m left) d left

-- ~EventHandler: by then the weak pointers to the handler have expired.
unfoldable pub destroy_handler : ℕ → Handler → World → World
destroy_handler h d w =
    leave_old d.event_manager d.handle (record w { handlers = put h none w.handlers })

-- A new handler.
unfoldable pub create_handler : ℕ → ℤ → ℕ → World → World
create_handler h socket events w =
    set_handler h (record { event_manager = none; handle = 0; socket = socket; events = events }) w
