-- ===== src/Events/Adding.antt =====
-- EventManager::Add, source/src/event_handlers.cc: what a handler that was added is registered as.
use link_layer_discovery.Base.{
  ℕ, suc, ◌+◌, ◌^◌, ◌<◌, ◌≡◌, refl, ◌≢◌, ◌∷◌, none, some, arith, length, Option-cases, inl, inr,
  ◌==◌, if◌then◌else◌,
}
use link_layer_discovery.Base.Key.{nat_key}
use link_layer_discovery.Base.Map.{lookup, lookup-insert}
use link_layer_discovery.Base.Ints.{ℤ}
use link_layer_discovery.Events.{
  World, Handler, events_of, set_manager, leave_old, next_id, ctl_add, added, failed, register,
  add_counted, add, create_handler,
}
use link_layer_discovery.Events.Counter.{next_id_free, next_id_positive}
use link_layer_discovery.Events.Links.{IsLinked, logged, leave_old-IsLinked, logged-IsLinked}

-- The number of a new handler is that of no object, and no weak pointer goes to it.
pub record IsNew (h : ℕ) (w : World) : Type 0 where
  pub unused : w.handlers h ≡ none
  pub unregistered : (m id : ℕ) → lookup id (events_of m w) ≢ some h

pub create_handler-IsLinked :
    (h : ℕ) (fd : ℤ) (events : ℕ) (w : World)
    → IsNew h w
    → IsLinked w
    → IsLinked (create_handler h fd events w)
unfolding create_handler
create_handler-IsLinked h fd events w new l = record {
  linked = λ m id i d at alive. ground (arith, at, alive, new.unregistered m id, l.linked m id i d);
  registered = λ i m d alive at. ground (arith, alive, at, l.registered i m d);
  no_zero = l.no_zero;
}

-- The counter is changed, the events of a manager are not.
count-IsLinked :
    (m n : ℕ) (w : World)
    → IsLinked w
    → IsLinked (set_manager m (record (w.managers m) { event_id_counter = n }) w)
count-IsLinked m n w l = record {
  linked = λ k id h d at alive. ground (arith, at, l.linked k id h d, l.linked m id h d, alive);
  registered = λ h k d alive at. ground (arith, alive, at, l.registered h k d, l.registered h m d);
  no_zero = λ k. ground (arith, l.no_zero k, l.no_zero m);
}

-- A handler without a manager is registered under a free id.
register-IsLinked :
    (m h id : ℕ) (d before : Handler) (w : World)
    → w.handlers h ≡ some before
    → before.event_manager ≡ none
    → lookup id (events_of m w) ≡ none
    → 0 < id
    → IsLinked w
    → IsLinked (register m h id d (none, w)).1
unfolding register
register-IsLinked m h id d before w there outside free positive l = record {
  linked = λ k q i e at alive. ground (
    arith,
    there,
    outside,
    at,
    alive,
    lookup-insert id q h (events_of m w),
    l.linked k q i e,
    l.linked m q i e,
    l.linked k q h before,
    l.linked m q h before,
  );
  registered = λ i k e alive at. ground (
    arith,
    alive,
    at,
    free,
    lookup-insert id e.handle h (events_of m w),
    l.registered i k e,
    l.registered i m e,
  );
  no_zero = λ k. ground (arith, l.no_zero k, l.no_zero m, lookup-insert id 0 h (events_of m w));
}

-- When Add reaches epoll_ctl: the handler has been taken out of its old manager, and the counter is within
-- its bounds.
pub record IsReady (m h : ℕ) (d : Handler) (left : World) : Type 0 where
  pub before : Handler
  pub there : left.handlers h ≡ some before
  pub outside : before.event_manager ≡ none
  pub positive : 0 < (left.managers m).event_id_counter
  pub bounded : (left.managers m).event_id_counter + suc (length (events_of m left)) < 2 ^ 64

abbrev pub left_by : Handler → World → World
left_by d w = leave_old d.event_manager d.handle w

add_counted-IsLinked :
    (m h : ℕ) (d : Handler) (w : World)
    → IsReady m h d w
    → IsLinked w
    → IsLinked (add_counted m h (next_id m w) d w).1
unfolding add_counted
add_counted-IsLinked m h d w r l =
    let id = next_id m w in
    let positive = r.positive in
    let counter = (w.managers m).event_id_counter in
    let above = next_id_positive counter (events_of m w) r.bounded in
    let free = next_id_free counter (events_of m w) r.bounded in
    let counted = set_manager m (record (w.managers m) { event_id_counter = id }) w in
    let calls = ctl_add m d.socket d.events id ∷ w.calls in
    let l' = logged-IsLinked counted calls (count-IsLinked m id w l) in
    let free' : lookup id (events_of m counted) ≡ none = ground (arith, free) in
    elim (Option-cases (w.answer (length w.calls))) [
      | inl e ↦ rw e (
          register-IsLinked m h id d r.before (logged counted calls) r.there r.outside free'
            (omega arith) l')
      | inr (error, e) ↦ rw e (unfold register in l')
    ]

-- Add keeps the links, whether or not epoll_ctl takes the handler, where the handler could be removed from the
-- manager it had and the counter is within its bounds.
pub add-IsLinked :
    (m h : ℕ) (d : Handler) (w : World)
    → IsReady m h d (left_by d w)
    → IsLinked w
    → IsLinked (add m h d w).1
unfolding add
add-IsLinked m h d w r l =
    add_counted-IsLinked m h d (left_by d w) r (leave_old-IsLinked d.event_manager d.handle w l)

-- Where epoll_ctl takes the handler, the id that is returned was free and now names the handler, and every other
-- event of the manager stays.
pub add_registers :
    (m h q : ℕ) (d : Handler) (w : World)
    → IsReady m h d (left_by d w)
    → (left_by d w).answer (length (left_by d w).calls) ≡ none
    → let id = next_id m (left_by d w) in
      ((add m h d w).0 ≡ added id)
      × (lookup id (events_of m (left_by d w)) ≡ none)
      × (lookup q (events_of m (add m h d w).1)
          ≡ (if q == id then some h else lookup q (events_of m (left_by d w))))
unfolding add
add_registers m h q d w r good =
    let left = left_by d w in
    let id = next_id m left in
    let free = next_id_free (left.managers m).event_id_counter (events_of m left) r.bounded in
    unfold add_counted register in
    (rw good (refl, free, ground (arith, lookup-insert id q h (events_of m left))))

-- Where epoll_ctl refuses the handler, the error is passed on, and no handler and no event is changed.
pub add_refused :
    (m h k error : ℕ) (d : Handler) (w : World)
    → (left_by d w).answer (length (left_by d w).calls) ≡ some error
    → ((add m h d w).0 ≡ failed error)
      × ((add m h d w).1.handlers ≡ (left_by d w).handlers)
      × (events_of k (add m h d w).1 ≡ events_of k (left_by d w))
unfolding add
add_refused m h k error d w bad = unfold add_counted register in (rw bad (refl, refl, ground arith))
