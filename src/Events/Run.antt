-- ===== src/Events/Run.antt =====
-- Any sequence of the calls of source/include/event_handlers.hh, on any managers and handlers.
use link_layer_discovery.Base.Key.{nat_key}
use link_layer_discovery.Base.Map.{lookup, IsAscending}
use link_layer_discovery.Base.{◌≢◌, ℕ, ◌≡◌, none, some}
use link_layer_discovery.Base.Ints.{ℤ}
use link_layer_discovery.Events.{
  World, Handler, events_of, remove, remove_handler, add, destroy_handler, create_handler,
}
use link_layer_discovery.Events.HandlerMove.{move_construct, move_construct-IsLinked}
use link_layer_discovery.Events.Move.{move_manager, move_manager-IsLinked}
use link_layer_discovery.Events.Process.{expired_handlers, remove_expired, destroy_manager}
use link_layer_discovery.Events.Links.{
  IsLinked, remove-IsLinked, remove_handler-IsLinked, destroy_handler-IsLinked,
  destroy_manager-IsLinked, remove_each-IsLinked,
}
use link_layer_discovery.Events.Adding.{
  IsNew, create_handler-IsLinked, IsReady, left_by, add-IsLinked,
}

pub data Step : World → World → Type 0 where
  created :
      (h : ℕ) (fd : ℤ) (events : ℕ) (w : World) → IsNew h w → Step w (create_handler h fd events w)
  joined :
      (m h : ℕ) (d : Handler) (w : World)
      → w.handlers h ≡ some d
      → IsReady m h d (left_by d w)
      → Step w (add m h d w).1
  removed : (m id : ℕ) (w : World) → Step w (remove m id w).1
  left : (m : ℕ) (d : Handler) (w : World) → Step w (remove_handler m d w).1
  cleaned : (m : ℕ) (w : World) → Step w (remove_expired m w)
  destroyed :
      (h : ℕ) (d : Handler) (w : World) → w.handlers h ≡ some d → Step w (destroy_handler h d w)
  moved :
      (i j : ℕ) (w : World)
      → i ≢ j
      → ((id : ℕ) → lookup id (events_of i w) ≡ none)
      → IsAscending (events_of j w)
      → Step w (move_manager i j w)
  shifted :
      (i j : ℕ) (d : Handler) (socket : ℤ) (w : World)
      → IsNew i w
      → w.handlers j ≡ some d
      → d.event_manager ≡ none
      → Step w (move_construct i j d socket w)
  closed : (m : ℕ) (w : World) → Step w (destroy_manager m w)

pub data Run : World → World → Type 0 where
  stay : (w : World) → Run w w
  go : (w v u : World) → Step w v → Run v u → Run w u

step-IsLinked : (w v : World) → Step w v → IsLinked w → IsLinked v
step-IsLinked w v (created h fd events u new) l = create_handler-IsLinked h fd events u new l
step-IsLinked w v (joined m h d u there ready) l = add-IsLinked m h d u ready l
step-IsLinked w v (removed m id u) l = remove-IsLinked m id u l
step-IsLinked w v (left m d u) l = remove_handler-IsLinked m d u l
step-IsLinked w v (cleaned m u) l = remove_each-IsLinked m (expired_handlers (events_of m u) u) u l
step-IsLinked w v (destroyed h d u there) l = destroy_handler-IsLinked h d u l
step-IsLinked w v (moved i j u other vacant a) l = move_manager-IsLinked i j u other vacant a l
step-IsLinked w v (shifted i j d socket u new there lone) l =
    move_construct-IsLinked i j d socket u new there lone l
step-IsLinked w v (closed m u) l = destroy_manager-IsLinked m u l

-- Over any run of these calls, whatever epoll answers, every event of a manager with a live handler points to a handler
-- that points back to that event, and every handler that points to a manager is registered there, where each Add
-- could remove its handler from the old manager, the counters are within their bounds, a manager is moved only to
-- one without events, and a handler is moved only while it has no manager. What ProcessEvents does before it waits
-- is one of the calls; a handler's Call is calls of its own.
pub run-IsLinked : (w v : World) → Run w v → IsLinked w → IsLinked v
run-IsLinked w v (stay u) l = l
run-IsLinked w v (go u t r step rest) l = run-IsLinked t r rest (step-IsLinked u t step l)
