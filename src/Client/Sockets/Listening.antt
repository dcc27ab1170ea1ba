-- ===== src/Client/Sockets/Listening.antt =====
-- ClientListenSocket::Call of source/src/client.cc: a client that connects.
use link_layer_discovery.Base.{
  ℕ, suc, ◌+◌, ◌^◌, ◌<◌, ◌≡◌, refl, false, [], ◌∷◌, ◌++◌, none, some, arith, length,
}
use link_layer_discovery.Base.Key.{nat_key}
use link_layer_discovery.Base.Map.{lookup}
use link_layer_discovery.Base.Store.{put}
use link_layer_discovery.Base.Ints.{ℤ, pos}
use link_layer_discovery.Events.{
  World, Handler, Added, events_of, next_id, create_handler, destroy_handler, leave_old, add, added,
  failed,
}
use link_layer_discovery.Events.Links.{IsLinked}
use link_layer_discovery.Events.Adding.{
  IsNew, create_handler-IsLinked, IsReady, add-IsLinked, add_registers, add_refused,
}
use link_layer_discovery.Client.Sockets.{
  ClientRepository, epollin, release, keep_added, new_handler, add_socket, call_listen,
}

-- The counter of the repository's manager is within its bounds.
pub record HasIds (m : ℕ) (w : World) : Type 0 where
  pub positive : 0 < (w.managers m).event_id_counter
  pub bounded : (w.managers m).event_id_counter + suc (length (events_of m w)) < 2 ^ 64

new_handler-IsReady :
    (m h : ℕ) (fd : ℤ) (w : World)
    → HasIds m w
    → IsReady m h (new_handler fd) (create_handler h fd epollin w)
unfolding create_handler
new_handler-IsReady m h fd w ids = record {
  before = new_handler fd;
  there = ground arith;
  outside = refl;
  positive = ids.positive;
  bounded = ids.bounded;
}

keep_added_lem :
    (h id : ℕ) (c : ClientRepository) (result : Added × World)
    → result.0 ≡ added id
    → keep_added h c result ≡ record c {
      transport_sockets =
          c.transport_sockets ++ (record { handler = h; eof_received = false } ∷ []);
      world = result.1;
    }
unfolding keep_added
keep_added_lem h id c (added i, w) e = refl
keep_added_lem h id c (failed i, w) e = absurd (ground (arith, e))

keep_added_failed :
    (h error : ℕ) (c : ClientRepository) (result : Added × World)
    → result.0 ≡ failed error
    → keep_added h c result ≡ record c { world = release h result.1 }
unfolding keep_added
keep_added_failed h id c (added i, w) e = absurd (ground (arith, e))
keep_added_failed h id c (failed i, w) e = refl

-- Where epoll_ctl takes the new socket, it stands last among the sockets, open, and the manager has an event for its
-- handler.
pub call_listen_accepts :
    (f h : ℕ) (c : ClientRepository)
    → IsNew h c.world
    → HasIds c.manager c.world
    → IsLinked c.world
    → c.world.answer (length c.world.calls) ≡ none
    → ((call_listen (pos f) h c).transport_sockets
        ≡ c.transport_sockets ++ (record { handler = h; eof_received = false } ∷ []))
      × ((id : ℕ) × (lookup id (events_of c.manager (call_listen (pos f) h c).world) ≡ some h))
      × IsLinked (call_listen (pos f) h c).world
unfolding call_listen add_socket leave_old create_handler
call_listen_accepts f h c new ids l good =
    let d = new_handler (pos f) in
    let w = create_handler h (pos f) epollin c.world in
    let good' : w.answer (length w.calls) ≡ none = good in
    let ready = new_handler-IsReady c.manager h (pos f) c.world ids in
    let linked =
      add-IsLinked c.manager h d w ready
        (create_handler-IsLinked h (pos f) epollin c.world new l) in
    let id = next_id c.manager w in
    let r = add_registers c.manager h id d w ready good' in
    let kept = keep_added_lem h id (record c { world = w }) (add c.manager h d w) r.0 in
    rw kept (refl, (id, ground (arith, r.2)), linked)

release_lone :
    (h : ℕ) (d : Handler) (w : World)
    → w.handlers h ≡ some d
    → d.event_manager ≡ none
    → release h w ≡ record w { handlers = put h none w.handlers }
unfolding release destroy_handler leave_old
release_lone h d w there lone = rw (there, lone) refl

-- Where epoll_ctl refuses the new socket, the sockets and the events stay as they were, and the new handler is gone.
pub call_listen_refuses :
    (f h k error : ℕ) (c : ClientRepository)
    → c.world.answer (length c.world.calls) ≡ some error
    → ((call_listen (pos f) h c).transport_sockets ≡ c.transport_sockets)
      × ((call_listen (pos f) h c).world.handlers h ≡ none)
      × (events_of k (call_listen (pos f) h c).world ≡ events_of k c.world)
unfolding call_listen add_socket leave_old create_handler
call_listen_refuses f h k error c bad =
    let d = new_handler (pos f) in
    let w = create_handler h (pos f) epollin c.world in
    let bad' : w.answer (length w.calls) ≡ some error = bad in
    let r = add_refused c.manager h k error d w bad' in
    let kept = keep_added_failed h error (record c { world = w }) (add c.manager h d w) r.0 in
    let there : (add c.manager h d w).1.handlers h ≡ some d = rw r.1 (ground arith) in
    let gone = release_lone h d (add c.manager h d w).1 there refl in
    rw (kept, gone) (refl, ground arith, r.2)
