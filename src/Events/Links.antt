-- ===== src/Events/Links.antt =====
-- Managers and handlers point to each other, source/src/event_handlers.cc.
use link_layer_discovery.Base.{
  ℕ, ◌≡◌, List, [], ◌∷◌, Option, none, some, arith, length, Option-cases, inl, inr, ◌==◌,
  if◌then◌else◌,
}
use link_layer_discovery.Base.Key.{nat_key}
use link_layer_discovery.Base.Map.{lookup, lookup-erase}
use link_layer_discovery.Base.Store.{put}
use link_layer_discovery.Events.{
  World, Handler, events_of, erase_event, unlinked, remove, leave_old, set_handler, Ctl, ctl_del,
  destroy_handler, remove_handler,
}
use link_layer_discovery.Events.Process.{remove_each, ids_of, destroy_manager}

-- An event of a manager whose handler is alive points to the handler that points back to both, and a handler
-- that points to a manager is registered there.
pub record IsLinked (w : World) : Type 0 where
  pub linked :
      (m id h : ℕ) (d : Handler)
      → lookup id (events_of m w) ≡ some h
      → w.handlers h ≡ some d
      → (d.event_manager ≡ some m) × (d.handle ≡ id)
  pub registered :
      (h m : ℕ) (d : Handler)
      → w.handlers h ≡ some d
      → d.event_manager ≡ some m
      → lookup d.handle (events_of m w) ≡ some h
  pub no_zero : (m : ℕ) → lookup 0 (events_of m w) ≡ none

pub events_of-erase_event :
    (m id k q : ℕ) (w : World)
    → lookup q (events_of k (erase_event m id w)) ≡ (
        if k == m
        then (if q == id then none else lookup q (events_of m w))
        else lookup q (events_of k w))
events_of-erase_event m id k q w = ground (arith, lookup-erase id q (events_of m w))

-- An event whose handler has expired is erased.
erase_expired :
    (m id h : ℕ) (w : World)
    → lookup id (events_of m w) ≡ some h
    → w.handlers h ≡ none
    → IsLinked w
    → IsLinked (erase_event m id w)
erase_expired m id h w found expired l = record {
  linked =
      λ k q i d at alive. ground (arith, at, events_of-erase_event m id k q w, l.linked k q i d);
  registered = λ i k d alive at. ground (
    arith,
    found,
    expired,
    alive,
    events_of-erase_event m id k d.handle w,
    l.registered i k d alive at,
  );
  no_zero = λ k. ground (arith, events_of-erase_event m id k 0 w, l.no_zero k);
}

-- An event whose handler is alive is erased, and the handler's pointers are cleared.
erase_alive :
    (m id h : ℕ) (d : Handler) (w : World)
    → lookup id (events_of m w) ≡ some h
    → w.handlers h ≡ some d
    → IsLinked w
    → IsLinked (erase_event m id (set_handler h (unlinked d) w))
erase_alive m id h d w found alive l = record {
  linked = λ k q i e at there. ground (
    arith,
    at,
    there,
    events_of-erase_event m id k q w,
    l.linked k q i e,
    l.linked m id h d found alive,
    l.linked k q h d,
  );
  registered = λ i k e there at.
      ground (arith, found, there, at, events_of-erase_event m id k e.handle w, l.registered i k e);
  no_zero = λ k. ground (arith, events_of-erase_event m id k 0 w, l.no_zero k);
}

-- epoll_ctl changes neither managers nor handlers.
abbrev pub logged : World → List Ctl → World
logged w calls = record w { calls = calls }

pub logged-IsLinked : (w : World) (calls : List Ctl) → IsLinked w → IsLinked (logged w calls)
logged-IsLinked w calls l = record {
  linked = l.linked;
  registered = l.registered;
  no_zero = l.no_zero;
}

-- Whatever epoll_ctl answers.
pub remove-IsLinked : (m id : ℕ) (w : World) → IsLinked w → IsLinked (remove m id w).1
unfolding remove
remove-IsLinked m id w l = elim (Option-cases (lookup id (events_of m w))) [
  | inl e ↦ rw e l
  | inr (h, e) ↦ rw e (elim (Option-cases (w.handlers h)) [
    | inl dead ↦ rw dead (erase_expired m id h w e dead l)
    | inr (d, alive) ↦
        let after = logged w (ctl_del m d.socket ∷ w.calls) in
        let l' = logged-IsLinked w (ctl_del m d.socket ∷ w.calls) l in
        rw alive (elim (Option-cases (w.answer (length w.calls))) [
          | inl good ↦ rw good (erase_alive m id h d after e alive l')
          | inr (error, bad) ↦ rw bad l'
        ])
  ])
]

pub leave_old-IsLinked :
    (manager : Option ℕ) (id : ℕ) (w : World) → IsLinked w → IsLinked (leave_old manager id w)
unfolding leave_old
leave_old-IsLinked none id w l = l
leave_old-IsLinked (some m) id w l = ground (arith, l, remove-IsLinked m id w l)

-- A handler that is gone points nowhere.
pub expire-IsLinked :
    (h : ℕ) (w : World) → IsLinked w → IsLinked (record w { handlers = put h none w.handlers })
expire-IsLinked h w l = record {
  linked = λ m id i d at alive. ground (arith, alive, l.linked m id i d at);
  registered = λ i m d alive at. ground (arith, alive, at, l.registered i m d);
  no_zero = l.no_zero;
}

pub destroy_handler-IsLinked :
    (h : ℕ) (d : Handler) (w : World) → IsLinked w → IsLinked (destroy_handler h d w)
unfolding destroy_handler
destroy_handler-IsLinked h d w l =
    leave_old-IsLinked d.event_manager d.handle (record w { handlers = put h none w.handlers })
      (expire-IsLinked h w l)

pub remove_each-IsLinked :
    (m : ℕ) (ids : List ℕ) (w : World) → IsLinked w → IsLinked (remove_each m ids w)
unfolding remove_each
remove_each-IsLinked m [] w l = l
remove_each-IsLinked m (id ∷ ids) w l =
    remove_each-IsLinked m ids (remove m id w).1 (remove-IsLinked m id w l)

pub remove_handler-IsLinked :
    (m : ℕ) (d : Handler) (w : World) → IsLinked w → IsLinked (remove_handler m d w).1
unfolding remove_handler
remove_handler-IsLinked m d w l = ground (arith, l, remove-IsLinked m d.handle w l)

pub destroy_manager-IsLinked : (m : ℕ) (w : World) → IsLinked w → IsLinked (destroy_manager m w)
unfolding destroy_manager
destroy_manager-IsLinked m w l = remove_each-IsLinked m (ids_of (events_of m w)) w l
