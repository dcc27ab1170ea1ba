-- ===== src/Server/Rounds/Sockets.antt =====
-- What the Call functions of the client's sockets, source/src/client.cc, keep of the managers and handlers.
use link_layer_discovery.Base.{
  ℕ, All, All-append, zero, suc, ◌+◌, ◌≤◌, ◌≡◌, refl, sym, subst, List, [], ◌∷◌, Option, none, some,
  arith, length, Option-cases, Bool-cases, inl, inr, get_elem?, ◌==◌,
}
use link_layer_discovery.Base.Ints.{ℤ, pos, negsuc}
use link_layer_discovery.Base.Key.{nat_key}
use link_layer_discovery.Base.Map.{Map}
use link_layer_discovery.Sender.{LldpSender}
use link_layer_discovery.Monitor.Neighbours.{NeighbourList}
use link_layer_discovery.Client.Sockets.{
  ClientSenderSocket, ClientRepository, epollin, erase_at, release, keep_added, sweep_at, sweep,
  new_handler, add_socket, call_listen, call_sender,
}
use link_layer_discovery.Events.{World, Added, added, failed, add, create_handler}
use link_layer_discovery.Server.Creation.Sockets.{Fits, create_handler-Fits}
use link_layer_discovery.Server.Rounds.Same.{
  Same, Same-trans, release-Same, create_handler-Same, add-Same,
}
use link_layer_discovery.Server.Rounds.Room.{Fits-less, release-Fits, add_new-Fits}
use link_layer_discovery.Server.Rounds.{wake_socket}

-- A socket whose handler has a number of `base` or above.
abbrev pub IsAbove : ℕ → ClientSenderSocket → Type 0
IsAbove base t = base ≤ t.handler

-- The client sockets belong to the manager, which has room; their handlers have numbers from `base` on, and below it the
-- handlers are those of the world `o`, whose answers epoll goes on to give.
pub record Serves (base m n next : ℕ) (o : World) (c : ClientRepository) : Type 0 where
  pub same_manager : c.manager ≡ m
  pub fits : Fits m n next c.world
  pub same : Same base c.world o
  pub apart : All (IsAbove base) c.transport_sockets
  pub later : base ≤ next

All-erase_at :
    (base i : ℕ) (ts : List ClientSenderSocket)
    → All (IsAbove base) ts
    → All (IsAbove base) (erase_at i ts)
unfolding erase_at
All-erase_at base i [] all = tt
All-erase_at base zero (t ∷ ts) all = all.1
All-erase_at base (suc i) (t ∷ ts) all = (all.0, All-erase_at base i ts all.1)

All-get_elem :
    (base i : ℕ) (ts : List ClientSenderSocket) (t : ClientSenderSocket)
    → get_elem? ts i ≡ some t
    → All (IsAbove base) ts
    → IsAbove base t
All-get_elem base i [] t e all = cc
All-get_elem base zero (u ∷ ts) t e all = ground (arith, e, all.0)
All-get_elem base (suc i) (u ∷ ts) t e all = All-get_elem base i ts t e all.1

module _ (base m : ℕ) (o : World) where
  release_one :
      (n next i : ℕ) (c : ClientRepository) (t : ClientSenderSocket)
      → get_elem? c.transport_sockets i ≡ some t
      → Serves base m n next o c
      → Serves base m n next o (record c {
        transport_sockets = erase_at i c.transport_sockets;
        world = release t.handler c.world;
      })
  release_one n next i c t e s =
      let high = All-get_elem base i c.transport_sockets t e s.apart in
      let gone = release-Same base t.handler c.world s.fits.links high in
      record {
        same_manager = s.same_manager;
        fits = release-Fits m n next t.handler c.world s.fits;
        same = Same-trans base (release t.handler c.world) c.world o gone s.same;
        apart = All-erase_at base i c.transport_sockets s.apart;
        later = s.later;
      }

  pub sweep-Serves :
      (n next i : ℕ) (c : ClientRepository)
      → Serves base m n next o c
      → Serves base m n next o (sweep i c)
  unfolding sweep
  sweep-Serves n next zero c s = s
  sweep-Serves n next (suc i) c s = elim (Option-cases (get_elem? c.transport_sockets i)) [
    | inl e ↦ rw (sweep, e) (unfold sweep_at in sweep-Serves n next i c s)
    | inr (t, e) ↦ elim (Bool-cases t.eof_received) [
      | inr running ↦ rw (sweep, e, sweep_at, running) (sweep-Serves n next i c s)
      | inl closed ↦
          rw (sweep, e, sweep_at, closed)
            (sweep-Serves n next i
              (record c {
                transport_sockets = erase_at i c.transport_sockets;
                world = release t.handler c.world;
              })
              (release_one n next i c t e s))
    ]
  ]

  keep_added-Serves :
      (n next h : ℕ) (c : ClientRepository) (result : Added × World)
      → base ≤ h
      → c.manager ≡ m
      → Fits m n next result.1
      → Same base result.1 o
      → All (IsAbove base) c.transport_sockets
      → base ≤ next
      → Serves base m n next o (keep_added h c result)
  unfolding keep_added
  keep_added-Serves n next h c (added id, w) high own f same apart later = record {
    same_manager = own;
    fits = f;
    same = same;
    apart = All-append (IsAbove base) c.transport_sockets _ apart (high, tt);
    later = later;
  }
  keep_added-Serves n next h c (failed error, w) high own f same apart later = record {
    same_manager = own;
    fits = release-Fits m n next h w f;
    same = Same-trans base (release h w) w o (release-Same base h w f.links high) same;
    apart = apart;
    later = later;
  }

pub call_listen-Serves :
    (base m n next : ℕ) (o : World) (fd : ℤ) (c : ClientRepository)
    → Serves base m (suc n) next o c
    → Serves base m n (suc next) o (call_listen fd next c)
unfolding call_listen add_socket
call_listen-Serves base m n next o (negsuc k) c s = record {
  same_manager = s.same_manager;
  fits = Fits-less m n (suc n) next (suc next) c.world (omega arith) (omega arith) s.fits;
  same = s.same;
  apart = s.apart;
  later = let le = s.later in omega arith;
}
call_listen-Serves base m n next o (pos f) c s =
    let le = s.later in
    let d = new_handler (pos f) in
    let w = create_handler next (pos f) epollin c.world in
    let there : w.handlers next ≡ some d = unfold create_handler in ground arith in
    let made = create_handler-Fits m (suc n) next epollin (pos f) c.world s.fits in
    let after = add_new-Fits m n (suc next) next d w there refl made in
    let free = made.room.above (w.managers m).event_id_counter (omega arith) in
    let joined = add-Same base m next d w le refl free in
    let born = create_handler-Same base next epollin (pos f) c.world le in
    let u = (add m next d w).1 in
    let same = Same-trans base u w o joined (Same-trans base w c.world o born s.same) in
    let own = sym s.same_manager in
    keep_added-Serves base m o n (suc next) next (record c { world = w }) (add c.manager next d w)
      le s.same_manager (subst (λ k. Fits m n (suc next) (add k next d w).1) own after)
      (subst (λ k. Same base (add k next d w).1 o) own same) s.apart (omega arith)

-- How many ids the rounds have.
abbrev pub wakes : List (Option (List ℕ)) → ℕ
wakes [] = 0
wakes (none ∷ rounds) = wakes rounds
wakes (some ids ∷ rounds) = length ids + wakes rounds

pub Serves-less :
    (base m n l next : ℕ) (o : World) (c : ClientRepository)
    → n ≤ l
    → Serves base m l next o c
    → Serves base m n next o c
Serves-less base m n l next o c less s = record {
  same_manager = s.same_manager;
  fits = Fits-less m n l next next c.world less (omega arith) s.fits;
  same = s.same;
  apart = s.apart;
  later = s.later;
}

call_sender-handler :
    (result : ℤ) (id : ℕ) (device_info : Map ℕ LldpSender) (neighbours : NeighbourList)
    → (t : ClientSenderSocket)
    → (call_sender result id device_info neighbours t).0.handler ≡ t.handler
unfolding call_sender
call_sender-handler (negsuc n) id device_info neighbours t = refl
call_sender-handler (pos zero) id device_info neighbours t = refl
call_sender-handler (pos (suc n)) id device_info neighbours t = ground arith

module _ (device_info : Map ℕ LldpSender) (neighbours : NeighbourList) where
  pub wake_socket-IsAbove :
      (base h : ℕ) (answer : ℤ × ℕ) (ts : List ClientSenderSocket)
      → All (IsAbove base) ts
      → All (IsAbove base) (wake_socket device_info neighbours h answer ts).0
  unfolding wake_socket
  wake_socket-IsAbove base h answer [] all = tt
  wake_socket-IsAbove base h answer (t ∷ ts) all =
      let rest = wake_socket-IsAbove base h answer ts all.1 in
      let kept : IsAbove base (call_sender answer.0 answer.1 device_info neighbours t).0 =
        rw (call_sender-handler answer.0 answer.1 device_info neighbours t) all.0 in
      elim (Bool-cases (t.handler == h)) [ inl e ↦ rw e (kept, all.1) | inr e ↦ rw e (all.0, rest) ]
