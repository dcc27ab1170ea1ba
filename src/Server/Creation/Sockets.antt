-- ===== src/Server/Creation/Sockets.antt =====
-- What the making, the joining and the dropping of one socket do to the managers and handlers, on every path of
-- the Create functions of source/src/device_reader.cc and source/src/ip_reader.cc.
use link_layer_discovery.Base.{
  ℕ, suc, ◌≤◌, ◌≡◌, refl, ap, subst, true, false, Option-cases, Bool-cases, inl, inr, none, some,
  arith, length, ◌==◌, if◌then◌else◌,
}
use link_layer_discovery.Base.Ints.{ℤ}
use link_layer_discovery.Base.Key.{nat_key}
use link_layer_discovery.Base.Map.{
  lookup, insert, lookup-insert, IsAscending, insert-IsAscending, erase-IsAscending,
}
use link_layer_discovery.Base.Store.{put}
use link_layer_discovery.Events.{
  World, Handler, events_of, leave_old, add, remove, erase_event, create_handler, destroy_handler,
}
use link_layer_discovery.Events.Links.{
  IsLinked, destroy_handler-IsLinked, expire-IsLinked, events_of-erase_event,
}
use link_layer_discovery.Events.Adding.{IsNew, create_handler-IsLinked, add-IsLinked}
use link_layer_discovery.Events.Counter.{length-erase}
use link_layer_discovery.Events.Unjoined.{add_unjoined, add_unjoined_others, add_unjoined_refused}
use link_layer_discovery.Server.Startup.{HasRoom, unjoined-IsReady, room_rest}

-- The links hold, `n` more handlers fit the manager, and the numbers from `next` on are unused.
pub record Fits (m n next : ℕ) (w : World) : Type 0 where
  pub links : IsLinked w
  pub room : HasRoom m n w
  pub ascending : IsAscending (events_of m w)
  pub unborn : (k : ℕ) → next ≤ k → IsNew k w

pub create_handler-Fits :
    (m n next events : ℕ) (fd : ℤ) (w : World)
    → Fits m n next w
    → Fits m n (suc next) (create_handler next fd events w)
create_handler-Fits m n next events fd w f = record {
  links = create_handler-IsLinked next fd events w (f.unborn next (omega arith)) f.links;
  room =
      unfold create_handler in
      (record { above = f.room.above; positive = f.room.positive; bounded = f.room.bounded });
  ascending = unfold create_handler in f.ascending;
  unborn = λ k later.
      unfold create_handler in
      (record {
        unused = ground (arith, later, (f.unborn k (omega arith)).unused);
        unregistered = (f.unborn k (omega arith)).unregistered;
      });
}

-- The events of any manager after a handler without one was added.
lookup-add :
    (m h i id : ℕ) (d : Handler) (w : World)
    → d.event_manager ≡ none
    → w.answer (length w.calls) ≡ none
    → lookup (w.managers m).event_id_counter (events_of m w) ≡ none
    → lookup id (events_of i (add m h d w).1) ≡ (
        if i == m
        then (if id == (w.managers m).event_id_counter then some h else lookup id (events_of m w))
        else lookup id (events_of i w))
lookup-add m h i id d w lone good free = elim (Bool-cases (i == m)) [
  | inl e ↦
      let same : i ≡ m = ground arith in
      let r = add_unjoined m h d w lone good free in
      let events : events_of m (add m h d w).1
          ≡ insert (w.managers m).event_id_counter h (events_of m w) =
        ap (λ manager. manager.registered_events) r.3 in
      rw (same, events)
        (ground (arith, lookup-insert (w.managers m).event_id_counter id h (events_of m w)))
  | inr e ↦
      let events : events_of i (add m h d w).1 ≡ events_of i w =
        ap (λ manager. manager.registered_events)
          (add_unjoined_others m h i d w lone good (ground (arith, e))) in
      rw (e, events) refl
]

module _ (m h : ℕ) {n next : ℕ} (d : Handler) (w : World) (there : w.handlers h ≡ some d) where
  -- A handler without a manager that is added, and then has one.
  pub add-Fits :
      d.event_manager ≡ none
      → w.answer (length w.calls) ≡ none
      → Fits m (suc n) next w
      → Fits m n next (add m h d w).1
  add-Fits lone good f =
      let free = f.room.above (w.managers m).event_id_counter (omega arith) in
      let r = add_unjoined m h d w lone good free in
      record {
        links = add-IsLinked m h d w (unjoined-IsReady m (suc n) h d w there lone f.room) f.links;
        room = room_rest m n h w (add m h d w).1 f.room r.3;
        ascending =
            rw (ap (λ manager. manager.registered_events) r.3)
              (insert-IsAscending (w.managers m).event_id_counter h (events_of m w) f.ascending);
        unborn = λ k later. record {
          unused = rw r.1 (ground (arith, there, (f.unborn k later).unused));
          unregistered = λ i id at. absurd (
              ground (
                arith,
                at,
                there,
                lookup-add m h i id d w lone good free,
                (f.unborn k later).unused,
                (f.unborn k later).unregistered i id,
                (f.unborn k later).unregistered m id,
              ));
        };
      }

  -- One that epoll_ctl refuses.
  pub add_refused-Fits :
      (error : ℕ)
      → d.event_manager ≡ none
      → w.answer (length w.calls) ≡ some error
      → Fits m (suc n) next w
      → Fits m n next (add m h d w).1
  add_refused-Fits error lone bad f =
      let free = f.room.above (w.managers m).event_id_counter (omega arith) in
      let b = f.room.bounded in
      let r = add_unjoined_refused m h error d w lone bad free in
      let events : (k : ℕ) → events_of k (add m h d w).1 ≡ events_of k w =
        λ k. ap (λ manager. manager.registered_events) (r.2 k) in
      record {
        links = add-IsLinked m h d w (unjoined-IsReady m (suc n) h d w there lone f.room) f.links;
        room = record {
          above = λ q le.
              rw (events m)
                (f.room.above q (subst (λ manager. manager.event_id_counter ≤ q) (r.2 m) le));
          positive = rw (r.2 m) f.room.positive;
          bounded = rw (r.2 m, events m) (omega arith);
        };
        ascending = rw (events m) f.ascending;
        unborn = λ k later. record {
          unused = rw r.1 (f.unborn k later).unused;
          unregistered = λ i id. rw (events i) ((f.unborn k later).unregistered i id);
        };
      }

-- The destructor of a handler without a manager.
destroy_unjoined :
    (h : ℕ) (d : Handler) (w : World)
    → d.event_manager ≡ none
    → destroy_handler h d w ≡ record w { handlers = put h none w.handlers }
unfolding destroy_handler leave_old
destroy_unjoined h d w lone = rw lone refl

-- The destructor of a handler that is registered: its event is erased, and no other handler is touched.
destroy_joined :
    (i h : ℕ) (d : Handler) (w : World)
    → IsLinked w
    → w.handlers h ≡ some d
    → d.event_manager ≡ some i
    → destroy_handler h d w ≡ erase_event i d.handle (record w { handlers = put h none w.handlers })
unfolding destroy_handler leave_old remove
destroy_joined i h d w l there joined =
    let at = l.registered h i d there joined in
    let positive : (d.handle == 0) ≡ false = ground (arith, at, l.no_zero i) in
    let gone : (h == h) ≡ true = ground arith in rw (joined, positive, at, gone) refl

-- Either way the handler is gone, and no other handler is changed.
pub destroy_handler-handlers :
    (h : ℕ) (d : Handler) (w : World)
    → IsLinked w
    → w.handlers h ≡ some d
    → (destroy_handler h d w).handlers ≡ put h none w.handlers
destroy_handler-handlers h d w l there = elim (Option-cases d.event_manager) [
  | inl lone ↦ ap (λ v. v.handlers) (destroy_unjoined h d w lone)
  | inr (i, joined) ↦ ap (λ v. v.handlers) (destroy_joined i h d w l there joined)
]

abbrev expired : ℕ → World → World
expired h w = record w { handlers = put h none w.handlers }

expire-Fits : (m n next h : ℕ) (w : World) → Fits m n next w → Fits m n next (expired h w)
expire-Fits m n next h w f = record {
  links = expire-IsLinked h w f.links;
  room = record { above = f.room.above; positive = f.room.positive; bounded = f.room.bounded };
  ascending = f.ascending;
  unborn = λ k later. record {
    unused = ground (arith, (f.unborn k later).unused);
    unregistered = (f.unborn k later).unregistered;
  };
}

-- An event is erased in a world that has the same managers and names no new handler, as one where a handler lost its
-- pointers.
pub erase_event-Fits :
    (m n next i id : ℕ) (w : World)
    → IsLinked (erase_event i id w)
    → HasRoom m n w
    → IsAscending (events_of m w)
    → ((k : ℕ) → next ≤ k → IsNew k w)
    → Fits m n next (erase_event i id w)
erase_event-Fits m n next i id w l room ascending unborn =
    let b = room.bounded in
    let after = λ (k q : ℕ). events_of-erase_event i id k q w in
    let shorter : length (events_of m (erase_event i id w)) ≤ length (events_of m w) =
      ground (arith, length-erase id (events_of i w)) in
    let counter : ((erase_event i id w).managers m).event_id_counter
        ≡ (w.managers m).event_id_counter =
      ground arith in
    record {
      links = l;
      room = record {
        above = λ q le. ground (arith, le, counter, after m q, room.above q);
        positive = rw counter room.positive;
        bounded = rw counter (omega (arith, shorter));
      };
      ascending = ground (arith, ascending, erase-IsAscending id (events_of i w));
      unborn = λ k later. record {
        unused = (unborn k later).unused;
        unregistered = λ j q at. absurd (
            ground (
              arith,
              at,
              after j q,
              (unborn k later).unregistered j q,
              (unborn k later).unregistered i q,
            ));
      };
    }

-- A handler that goes leaves room.
pub destroy_handler-Fits :
    (m n next h : ℕ) (d : Handler) (w : World)
    → w.handlers h ≡ some d
    → Fits m n next w
    → Fits m n next (destroy_handler h d w)
destroy_handler-Fits m n next h d w there f =
    let l = destroy_handler-IsLinked h d w f.links in
    elim (Option-cases d.event_manager) [
      | inl lone ↦ rw (destroy_unjoined h d w lone) (expire-Fits m n next h w f)
      | inr (i, joined) ↦
          let e = destroy_joined i h d w f.links there joined in
          rw e (
            let g = expire-Fits m n next h w f in
            erase_event-Fits m n next i d.handle (expired h w) (subst IsLinked e l) g.room
              g.ascending g.unborn)
    ]
