-- ===== src/Server/Rounds/Room.antt =====
-- What Remove, Add and a destructor leave of the room in a manager, whatever epoll_ctl answers, source/src/event_handlers.cc.
use link_layer_discovery.Base.{
  ℕ, suc, ◌≤◌, ◌≡◌, refl, subst, List, [], ◌∷◌, none, some, arith, length, Option-cases, inl, inr,
}
use link_layer_discovery.Base.Key.{nat_key}
use link_layer_discovery.Base.Map.{lookup}
use link_layer_discovery.Client.Sockets.{release}
use link_layer_discovery.Events.{
  World, Handler, events_of, erase_event, remove, add, set_handler, unlinked, ctl_del,
}
use link_layer_discovery.Events.Links.{IsLinked, remove-IsLinked}
use link_layer_discovery.Events.Process.{remove_each}
use link_layer_discovery.Server.Creation.Sockets.{
  Fits, add-Fits, add_refused-Fits, erase_event-Fits, destroy_handler-Fits,
}

-- Room for fewer, and numbers from a later one on.
pub Fits-less :
    (m n l next later : ℕ) (w : World) → n ≤ l → next ≤ later → Fits m l next w → Fits m n later w
Fits-less m n l next later w less after f =
    let b = f.room.bounded in
    record {
      links = f.links;
      room = record { above = f.room.above; positive = f.room.positive; bounded = omega arith };
      ascending = f.ascending;
      unborn = λ k le. f.unborn k (omega arith);
    }

abbrev del_logged : ℕ → Handler → World → World
del_logged i d w = record w { calls = ctl_del i d.socket ∷ w.calls }

-- What Remove comes to, where the event is there.
remove_expired_one :
    (i id h : ℕ) (w : World)
    → lookup id (events_of i w) ≡ some h
    → w.handlers h ≡ none
    → (remove i id w).1 ≡ erase_event i id w
unfolding remove
remove_expired_one i id h w e dead = rw (e, dead) refl

remove_alive :
    (i id h : ℕ) (d : Handler) (w : World)
    → lookup id (events_of i w) ≡ some h
    → w.handlers h ≡ some d
    → w.answer (length w.calls) ≡ none
    → (remove i id w).1 ≡ erase_event i id (set_handler h (unlinked d) (del_logged i d w))
unfolding remove
remove_alive i id h d w e alive good = rw (e, alive, good) refl

remove_refused :
    (i id h error : ℕ) (d : Handler) (w : World)
    → lookup id (events_of i w) ≡ some h
    → w.handlers h ≡ some d
    → w.answer (length w.calls) ≡ some error
    → (remove i id w).1 ≡ del_logged i d w
unfolding remove
remove_refused i id h error d w e alive bad = rw (e, alive, bad) refl

remove_missing : (i id : ℕ) (w : World) → lookup id (events_of i w) ≡ none → (remove i id w).1 ≡ w
unfolding remove
remove_missing i id w e = rw e refl

-- Remove, of whatever id and whatever epoll_ctl answers.
remove-Fits : (m n next i id : ℕ) (w : World) → Fits m n next w → Fits m n next (remove i id w).1
remove-Fits m n next i id w f =
    let l = remove-IsLinked i id w f.links in
    elim (Option-cases (lookup id (events_of i w))) [
      | inl e ↦ rw (remove_missing i id w e) f
      | inr (h, e) ↦ elim (Option-cases (w.handlers h)) [
        | inl dead ↦
            let same = remove_expired_one i id h w e dead in
            rw same
              (erase_event-Fits m n next i id w (subst IsLinked same l) f.room f.ascending f.unborn)
        | inr (d, alive) ↦ elim (Option-cases (w.answer (length w.calls))) [
          | inl good ↦
              let same = remove_alive i id h d w e alive good in
              let v = set_handler h (unlinked d) (del_logged i d w) in
              rw same (
                erase_event-Fits m n next i id v (subst IsLinked same l)
                  (record {
                    above = f.room.above;
                    positive = f.room.positive;
                    bounded = f.room.bounded;
                  })
                  f.ascending
                  (λ k later. record {
                    unused = ground (arith, alive, (f.unborn k later).unused);
                    unregistered = (f.unborn k later).unregistered;
                  }))
          | inr (error, bad) ↦
              let same = remove_refused i id h error d w e alive bad in
              rw same (record {
                links = subst IsLinked same l;
                room = record {
                  above = f.room.above;
                  positive = f.room.positive;
                  bounded = f.room.bounded;
                };
                ascending = f.ascending;
                unborn = λ k later. record {
                  unused = (f.unborn k later).unused;
                  unregistered = (f.unborn k later).unregistered;
                };
              })
        ]
      ]
    ]

pub remove_each-Fits :
    (m n next i : ℕ) (ids : List ℕ) (w : World)
    → Fits m n next w
    → Fits m n next (remove_each i ids w)
unfolding remove_each
remove_each-Fits m n next i [] w f = f
remove_each-Fits m n next i (id ∷ ids) w f =
    remove_each-Fits m n next i ids (remove i id w).1 (remove-Fits m n next i id w f)

pub release-Fits : (m n next h : ℕ) (w : World) → Fits m n next w → Fits m n next (release h w)
unfolding release
release-Fits m n next h w f = elim (Option-cases (w.handlers h)) [
  | inl e ↦ rw e f
  | inr (d, e) ↦ rw e (destroy_handler-Fits m n next h d w e f)
]

pub add_new-Fits :
    (m n next h : ℕ) (d : Handler) (w : World)
    → w.handlers h ≡ some d
    → d.event_manager ≡ none
    → Fits m (suc n) next w
    → Fits m n next (add m h d w).1
add_new-Fits m n next h d w there lone f = elim (Option-cases (w.answer (length w.calls))) [
  | inl good ↦ add-Fits m h d w there lone good f
  | inr (error, bad) ↦ add_refused-Fits m h d w there error lone bad f
]
