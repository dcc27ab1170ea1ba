-- ===== src/Server/Rounds.antt =====
-- The rounds of the server's loop on its handlers: ProcessEvents of source/src/event_handlers.cc with the Call
-- functions that the server registers, source/src/client.cc. What `accept`, `recvmsg` and epoll answer is a
-- parameter.
pub mod Same
pub mod Room
pub mod Sockets
pub mod Linked
use link_layer_discovery.Base.{ℕ, suc, List, [], ◌∷◌, ◌++◌, Option, ◌==◌, if◌then◌else◌}
use link_layer_discovery.Base.Ints.{ℤ}
use link_layer_discovery.Base.Map.{Map}
use link_layer_discovery.Sender.{LldpSender}
use link_layer_discovery.Monitor.Neighbours.{NeighbourList}
use link_layer_discovery.Client.Sockets.{
  ClientSenderSocket, Reply, call_sender, ClientRepository, call_repository, call_listen,
}
use link_layer_discovery.Events.{World}
use link_layer_discovery.Events.Process.{process_events}

-- The client sockets with the world of the handlers, the number of the next object, the results of `accept` and of
-- `recvmsg` with the id that it copies, how many were used, and what was sent, the last one first.
pub record Hub : Type 0 where
  pub clients : ClientRepository
  pub next_object : ℕ
  pub accepts : ℕ → ℤ
  pub accepted : ℕ
  pub receives : ℕ → ℤ × ℕ
  pub received : ℕ
  pub replies : List Reply

abbrev pub hub_world : Hub → World
hub_world s = s.clients.world

abbrev pub with_hub_world : World → Hub → Hub
with_hub_world w s = record s { clients = record (s.clients) { world = w } }

-- ClientListenSocket::Call, with the next answer of `accept`.
unfoldable pub accept_client : Hub → Hub
accept_client s = record s {
  clients = call_listen (s.accepts s.accepted) s.next_object s.clients;
  next_object = suc s.next_object;
  accepted = suc s.accepted;
}

module _ (device_info : Map ℕ LldpSender) (neighbours : NeighbourList) where
  -- ClientSenderSocket::Call of the socket with this handler, and what it does besides.
  unfoldable pub wake_socket :
      ℕ → ℤ × ℕ → List ClientSenderSocket → List ClientSenderSocket × List Reply
  wake_socket h answer [] = ([], [])
  wake_socket h answer (c ∷ cs) =
      let rest = wake_socket h answer cs in
      let called = call_sender answer.0 answer.1 device_info neighbours c in
      if c.handler == h then (called.0 ∷ cs, called.1 ∷ []) else (c ∷ rest.0, rest.1)

-- The senders and the neighbours at the n-th `recvmsg`.
module _ (device_info : ℕ → Map ℕ LldpSender) (neighbours : ℕ → NeighbourList) where
  unfoldable pub call_socket : ℕ → Hub → Hub
  call_socket h s =
      let n = s.received in
      let woken =
        wake_socket (device_info n) (neighbours n) h (s.receives n) s.clients.transport_sockets in
      record s {
        clients = record (s.clients) { transport_sockets = woken.0 };
        received = suc n;
        replies = woken.1 ++ s.replies;
      }

  -- The Call of a handler: that of the listener, that of the repository, or that of a client's socket. The other handlers of
  -- the server have no Call that touches a manager, a handler or a client's socket; for them this changes nothing but
  -- the answer that comes next.
  unfoldable pub on_call : ℕ → ℕ → ℕ → Hub → Hub
  on_call listener notify h s =
      if h == listener
      then accept_client s
      else if h == notify
      then record s { clients = call_repository s.clients }
      else call_socket h s

  -- The loop of `main` over the ids that epoll_wait returns in each round.
  unfoldable pub process_rounds : ℕ → ℕ → ℕ → List (Option (List ℕ)) → Hub → Hub
  process_rounds m listener notify [] s = s
  process_rounds m listener notify (ready ∷ rounds) s =
      process_rounds m listener notify rounds
        (process_events hub_world with_hub_world (on_call listener notify) m ready s)
