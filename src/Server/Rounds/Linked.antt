-- ===== src/Server/Rounds/Linked.antt =====
-- Over the rounds of the server, source/src/server_main.cc with source/src/event_handlers.cc and source/src/client.cc,
-- managers and handlers point to each other.
use link_layer_discovery.Base.{
  ℕ, All, suc, ◌+◌, ◌≤◌, refl, List, [], ◌∷◌, Option, none, some, arith, length, length-take, take,
  Option-cases, Bool-cases, inl, inr, ◌==◌,
}
use link_layer_discovery.Base.Key.{nat_key}
use link_layer_discovery.Base.Map.{Map}
use link_layer_discovery.Sender.{LldpSender}
use link_layer_discovery.Monitor.Neighbours.{NeighbourList}
use link_layer_discovery.Client.Sockets.{ClientSenderSocket}
use link_layer_discovery.Events.{World, events_of}
use link_layer_discovery.Events.Links.{IsLinked}
use link_layer_discovery.Events.Process.{
  expired_handlers, remove_expired, target, dispatch, process_events,
}
use link_layer_discovery.Server.Creation.Sockets.{Fits}
use link_layer_discovery.Server.Rounds.Same.{Same-refl, Same-trans, remove_expired-Same}
use link_layer_discovery.Server.Rounds.Room.{remove_each-Fits}
use link_layer_discovery.Server.Rounds.{
  Hub, hub_world, with_hub_world, accept_client, call_socket, on_call, process_rounds,
}
use link_layer_discovery.Server.Rounds.Sockets.{
  IsAbove, Serves, sweep-Serves, call_listen-Serves, wakes, Serves-less, wake_socket-IsAbove,
}

-- The rounds of a server: `base` is the number of the first object made in the loop, `o` the world where it begins.
module _ (device_info : ℕ → Map ℕ LldpSender) (neighbours : ℕ → NeighbourList)
    (base m listener notify : ℕ) (o : World) where
  abbrev pub HubServes : ℕ → Hub → Type 0
  HubServes n s = Serves base m n s.next_object o s.clients

  -- A wake-up of a handler, which makes one handler at most.
  on_call-Serves :
      (n h : ℕ) (s : Hub)
      → HubServes (suc n) s
      → HubServes n (on_call device_info neighbours listener notify h s)
  unfolding on_call accept_client call_socket
  on_call-Serves n h s serves =
      let less = Serves-less base m n (suc n) s.next_object o s.clients (omega arith) serves in
      elim (Bool-cases (h == listener)) [
        | inl e ↦
            rw e
              (call_listen-Serves base m n s.next_object o (s.accepts s.accepted) s.clients serves)
        | inr other ↦ elim (Bool-cases (h == notify)) [
          | inl e ↦
              rw (other, e)
                (sweep-Serves base m o n s.next_object (length s.clients.transport_sockets)
                  s.clients less)
          | inr e ↦
              rw (other, e)
                (record {
                  same_manager = less.same_manager;
                  fits = less.fits;
                  same = less.same;
                  apart =
                      wake_socket-IsAbove (device_info s.received) (neighbours s.received) base h
                        (s.receives s.received) s.clients.transport_sockets less.apart;
                  later = less.later;
                })
        ]
      ]

  abbrev dispatched : List ℕ → Hub → Hub
  dispatched ids s =
      dispatch hub_world with_hub_world (on_call device_info neighbours listener notify) m ids s

  dispatch-Serves :
      (l n : ℕ) (ids : List ℕ) (s : Hub)
      → length ids + n ≤ l
      → HubServes l s
      → HubServes n (dispatched ids s)
  unfolding dispatch
  dispatch-Serves l n [] s le serves =
      Serves-less base m n l s.next_object o s.clients (omega arith) serves
  dispatch-Serves l n (id ∷ ids) s le serves =
      let k = length ids + n in
      let enough = Serves-less base m (suc k) l s.next_object o s.clients (omega arith) serves in
      elim (Option-cases (target m id (hub_world s))) [
        | inl e ↦ rw (dispatch, e) (dispatch-Serves (suc k) n ids s (omega arith) enough)
        | inr (h, e) ↦
            rw (dispatch, e)
              (dispatch-Serves k n ids (on_call device_info neighbours listener notify h s)
                (omega arith) (on_call-Serves k h s enough))
      ]

  -- One round of the loop.
  abbrev process_round : Option (List ℕ) → Hub → Hub
  process_round ready s =
      process_events hub_world with_hub_world (on_call device_info neighbours listener notify) m
        ready s

  remove_expired-Serves :
      (l : ℕ) (s : Hub)
      → HubServes l s
      → HubServes l (with_hub_world (remove_expired m (hub_world s)) s)
  remove_expired-Serves l s serves =
      let w = hub_world s in
      let f = serves.fits in
      record {
        same_manager = serves.same_manager;
        fits = remove_each-Fits m l s.next_object m (expired_handlers (events_of m w) w) w f;
        same =
            Same-trans base (remove_expired m w) w o (remove_expired-Same base m w f.ascending)
              serves.same;
        apart = serves.apart;
        later = serves.later;
      }

  process_round-Serves :
      (l n : ℕ) (ready : Option (List ℕ)) (s : Hub)
      → wakes (ready ∷ []) + n ≤ l
      → HubServes l s
      → HubServes n (process_round ready s)
  unfolding process_events
  process_round-Serves l n none s le serves =
      let cleaned = with_hub_world (remove_expired m (hub_world s)) s in
      Serves-less base m n l s.next_object o cleaned.clients (omega arith)
        (remove_expired-Serves l s serves)
  process_round-Serves l n (some ids) s le serves =
      dispatch-Serves l n (take 10 ids) (with_hub_world (remove_expired m (hub_world s)) s)
        (omega (arith, length-take 10 ids)) (remove_expired-Serves l s serves)

  pub process_rounds-Serves :
      (l n : ℕ) (rounds : List (Option (List ℕ))) (s : Hub)
      → wakes rounds + n ≤ l
      → HubServes l s
      → HubServes n (process_rounds device_info neighbours m listener notify rounds s)
  unfolding process_rounds
  process_rounds-Serves l n [] s le serves =
      Serves-less base m n l s.next_object o s.clients (omega arith) serves
  process_rounds-Serves l n (ready ∷ rounds) s le serves =
      let first : wakes (ready ∷ []) + (wakes rounds + n) ≤ l = ground (arith, le) in
      process_rounds-Serves (wakes rounds + n) n rounds (process_round ready s) (omega arith)
        (process_round-Serves l (wakes rounds + n) ready s first serves)

All-IsAbove : (ts : List ClientSenderSocket) → All (IsAbove 0) ts
All-IsAbove [] = tt
All-IsAbove (t ∷ ts) = (omega arith, All-IsAbove ts)

module _ (device_info : ℕ → Map ℕ LldpSender) (neighbours : ℕ → NeighbourList) where
  -- Over any rounds of the server, whatever ids epoll_wait returns, whatever `accept` and `recvmsg` answer, and whichever calls
  -- epoll_ctl refuses, every event of a manager with a live handler points to a handler that points back to that
  -- event, and every handler that points to a manager is registered there; where this holds before, the manager has
  -- its events in order and room for as many more as there are ids, and no number from the next object's on is in
  -- use.
  pub process_rounds-IsLinked :
      (listener notify : ℕ) (rounds : List (Option (List ℕ))) (s : Hub)
      → Fits s.clients.manager (wakes rounds) s.next_object s.clients.world
      → IsLinked (
          hub_world
            (process_rounds device_info neighbours s.clients.manager listener notify rounds s))
  process_rounds-IsLinked listener notify rounds s f =
      let served =
        process_rounds-Serves device_info neighbours 0 s.clients.manager listener notify
          s.clients.world (wakes rounds) 0 rounds s (omega arith)
          (record {
            same_manager = refl;
            fits = f;
            same = Same-refl 0 s.clients.world;
            apart = All-IsAbove s.clients.transport_sockets;
            later = omega arith;
          }) in
      served.fits.links
