-- ===== src/Client/Sockets.antt =====
-- The server's client sockets, source/src/client.cc: ClientSenderSocket::Call, ClientRepository and
-- ClientListenSocket::Call, over the handlers and managers of Events.
pub mod Swept
pub mod Listening
use link_layer_discovery.Base.{
  ℕ, zero, suc, Bool, true, false, List, [], ◌∷◌, ◌++◌, Option, none, some, length, get_elem?, ◌==◌,
  if◌then◌else◌,
}
use link_layer_discovery.Base.Map.{Map}
use link_layer_discovery.Base.Ints.{ℤ, pos, negsuc}
use link_layer_discovery.Sender.{LldpSender}
use link_layer_discovery.Monitor.Neighbours.{NeighbourList}
use link_layer_discovery.Client.Packet.{ClientPacket}
use link_layer_discovery.Client.Dump.{dump_data}
use link_layer_discovery.Events.{
  World, Handler, Added, added, failed, add, create_handler, destroy_handler,
}

-- ClientSenderSocket: its handler, and `eof_received_`.
pub record ClientSenderSocket : Type 0 where
  pub handler : ℕ
  pub eof_received : Bool

-- What a Call does besides: nothing, a write to the notify socket, or a dump.
pub data Reply : Type 0 where
  silent : Reply
  notified : Reply
  dumped : Option (List ClientPacket) → Reply

-- ClientSenderSocket::Call, with the result of `recvmsg(MSG_TRUNC)` and the request id that it copied.
unfoldable pub call_sender :
    ℤ → ℕ → Map ℕ LldpSender → NeighbourList → ClientSenderSocket → ClientSenderSocket × Reply
call_sender (negsuc n) request device_info neighbours s = (s, silent)
call_sender (pos zero) request device_info neighbours s =
    (record s { eof_received = true }, notified)
call_sender (pos (suc n)) request device_info neighbours s =
    if suc n == 2 then (s, dumped (dump_data device_info request neighbours)) else (s, silent)

-- ClientRepository, with the objects that its methods change; `manager` is `event_manager_`.
pub record ClientRepository : Type 0 where
  pub transport_sockets : List ClientSenderSocket
  pub manager : ℕ
  pub world : World

-- The last owner of a handler lets it go.
destroy_found : ℕ → Option Handler → World → World
destroy_found h none w = w
destroy_found h (some d) w = destroy_handler h d w

unfoldable pub release : ℕ → World → World
unfolding destroy_found
release h w = destroy_found h (w.handlers h) w

-- `erase` of one element of a vector.
unfoldable pub erase_at {ℓ} : {A : Type ℓ} → ℕ → List A → List A
erase_at i [] = []
erase_at zero (x ∷ xs) = xs
erase_at (suc i) (x ∷ xs) = x ∷ erase_at i xs

-- A round of the loop of ClientRepository::Call, at an index.
unfoldable pub sweep_at : ℕ → Option ClientSenderSocket → ClientRepository → ClientRepository
sweep_at i none c = c
sweep_at i (some s) c =
    if s.eof_received
    then record c {
      transport_sockets = erase_at i c.transport_sockets;
      world = release s.handler c.world;
    }
    else c

-- The loop, from the last index down.
unfoldable pub sweep : ℕ → ClientRepository → ClientRepository
unfolding sweep_at
sweep zero c = c
sweep (suc i) c = sweep i (sweep_at i (get_elem? c.transport_sockets i) c)

-- ClientRepository::Call: what it reads from the eventfd does not matter.
abbrev pub call_repository : ClientRepository → ClientRepository
call_repository c = sweep (length c.transport_sockets) c

-- ClientRepository::Add, of a socket whose handler stands as `d`, and the end of the caller's pointer.
unfoldable pub keep_added : ℕ → ClientRepository → Added × World → ClientRepository
keep_added h c (added id, w) = record c {
  transport_sockets = c.transport_sockets ++ (record { handler = h; eof_received = false } ∷ []);
  world = w;
}
keep_added h c (failed error, w) = record c { world = release h w }

unfoldable pub add_socket : ℕ → Handler → ClientRepository → ClientRepository
unfolding keep_added
add_socket h d c = keep_added h c (add c.manager h d c.world)

-- EPOLLIN
abbrev pub epollin : ℕ
epollin = 1

-- A new ClientSenderSocket.
abbrev pub new_handler : ℤ → Handler
new_handler fd = record { event_manager = none; handle = 0; socket = fd; events = epollin }

-- ClientListenSocket::Call, with what `accept` returns and the number of the new handler.
unfoldable pub call_listen : ℤ → ℕ → ClientRepository → ClientRepository
call_listen (negsuc n) h c = c
call_listen (pos f) h c =
    add_socket h (new_handler (pos f))
      (record c { world = create_handler h (pos f) epollin c.world })
