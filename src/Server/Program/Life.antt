-- ===== src/Server/Program/Life.antt =====
-- The whole of `main`, source/src/server_main.cc: the start, any number of rounds of the loop, and the removal of the
-- handlers.
use link_layer_discovery.Base.{
  ℕ, suc, ◌+◌, ◌^◌, ◌<◌, ◌≡◌, refl, ◌∙◌, sym, subst, List, [], ◌∷◌, Option, none, some, arith, All,
  length, get_elem?,
}
use link_layer_discovery.Base.Ints.{ℤ, pos}
use link_layer_discovery.Base.Key.{nat_key}
use link_layer_discovery.Base.Map.{Map}
use link_layer_discovery.Descriptor.{is_valid}
use link_layer_discovery.Opening.{create_plain}
use link_layer_discovery.Sender.{LldpSender}
use link_layer_discovery.Monitor.Neighbours.{NeighbourList}
use link_layer_discovery.Client.Listen.{Paths}
use link_layer_discovery.Events.{World, add, create_handler}
use link_layer_discovery.Events.Links.{IsLinked}
use link_layer_discovery.Events.Unjoined.{add_unjoined}
use link_layer_discovery.Server.Shutdown.{IsDistinct, JoinedTo, shut_down, shut_down_ends}
use link_layer_discovery.Server.Startup.{
  IsUnjoined, start_up, All-let_go, unwrap_good, IsUnjoined-rest,
}
use link_layer_discovery.Server.Creation.{with_world}
use link_layer_discovery.Server.Creation.Sockets.{Fits, add-Fits}
use link_layer_discovery.Server.Creation.Repositories.{Left, create_lldp_repository-Left}
use link_layer_discovery.Server.Creation.Granted.{IsGranted, create_lldp_repository_succeeds}
use link_layer_discovery.Server.Program.{Running, start_program}
use link_layer_discovery.Server.Program.Equipped.{
  Descriptors, given, vector, vector-IsDistinct, vector_below, five-Fits, five-IsUnjoined, equipped,
  initialize_handlers_equips,
}
use link_layer_discovery.Server.Program.Boot.{
  unstarted, unstarted-Fits, with_epoll, world_of, LocalJoined, LocalJoined-kept, joined_same,
  equipped_joins,
}
use link_layer_discovery.Server.Rounds.{Hub, hub_world, process_rounds}
use link_layer_discovery.Server.Rounds.Same.{Same-refl}
use link_layer_discovery.Server.Rounds.Room.{Fits-less}
use link_layer_discovery.Server.Rounds.Sockets.{Serves, wakes}
use link_layer_discovery.Server.Rounds.Linked.{process_rounds-Serves}

-- The room that the loop over the new handlers leaves.
start_up-Fits :
    (m n next : ℕ) (hs : List ℕ) (w v : World)
    → IsDistinct hs
    → All (IsUnjoined w) hs
    → ((k : ℕ) → w.answer k ≡ none)
    → Fits m (length hs + n) next w
    → start_up m hs w ≡ some v
    → Fits m n next v
unfolding start_up
start_up-Fits m n next [] w v distinct all good f e =
    let same : w ≡ v = ground (arith, e) in
    subst (Fits m n next) same (Fits-less m n (0 + n) next next w (omega arith) (omega arith) f)
start_up-Fits m n next (h ∷ hs) w v distinct all good f e =
    let (d, there, lone) = all.0 in
    let k = length hs + n in
    let f' = Fits-less m (suc k) (length (h ∷ hs) + n) next next w (omega arith) (omega arith) f in
    let free = f'.room.above (w.managers m).event_id_counter (omega arith) in
    let r = add_unjoined m h d w lone (good (length w.calls)) free in
    let u = (add m h d w).1 in
    let joined = record d { event_manager = some m; handle = (w.managers m).event_id_counter } in
    let first = unwrap_good (w.managers m).event_id_counter (add m h d w) r.0 in
    let step : start_up m (h ∷ hs) w ≡ start_up m hs u = rw (there, first) refl in
    start_up-Fits m n next hs u v distinct.1 (IsUnjoined-rest h joined hs w u r.1 distinct.0 all.1)
      (λ q. rw r.2 (good q)) (add-Fits m h d w there lone (good (length w.calls)) f') (sym step ∙ e)

-- The number of a handler in the vector.
abbrev handler_at : ℕ → List ℕ → ℕ
handler_at i hs = elim (get_elem? hs i) [ none ↦ 0 | some h ↦ h ]

-- Where the loop begins: no client, and the answers of `accept` and `recvmsg` to come.
abbrev pub hub_of : ℕ → (ℕ → ℤ) → (ℕ → ℤ × ℕ) → Running → Hub
hub_of m accepts receives r = record {
  clients = record { transport_sockets = []; manager = m; world = world_of r };
  next_object = r.program.machine.next_object;
  accepts = accepts;
  accepted = 0;
  receives = receives;
  received = 0;
  replies = [];
}

-- What the loop of `main` leaves of the managers and handlers, after these rounds: the fourth handler of the vector is the
-- listener, the third the client repository.
unfoldable pub after_loop :
    (ℕ → Map ℕ LldpSender)
    → (ℕ → NeighbourList)
    → ℕ
    → (ℕ → ℤ)
    → (ℕ → ℤ × ℕ)
    → List (Option (List ℕ))
    → Running
    → World
after_loop device_info neighbours m accepts receives rounds r = hub_world (
    process_rounds device_info neighbours m (handler_at 3 r.handlers) (handler_at 2 r.handlers)
      rounds (hub_of m accepts receives r))

vector-JoinedTo :
    (m i : ℕ) (w v : World)
    → ((k : ℕ) → k < suc (suc (suc (suc (suc i)))) → v.handlers k ≡ w.handlers k)
    → All (JoinedTo m w) (vector i)
    → All (JoinedTo m v) (vector i)
vector-JoinedTo m i w v same (a, (b, (c, (d, (e, end))))) = (
  joined_same m _ v w (same _ (omega arith)) a,
  (
    joined_same m _ v w (same _ (omega arith)) b,
    (
      joined_same m _ v w (same _ (omega arith)) c,
      (
        joined_same m _ v w (same _ (omega arith)) d,
        (joined_same m _ v w (same _ (omega arith)) e, tt),
      ),
    ),
  ),
)

module _ (device_info : ℕ → Map ℕ LldpSender) (neighbours : ℕ → NeighbourList) where
  -- Where the kernel grants what the start asks for, and epoll_ctl refuses nothing, the server comes up, runs and goes down,
  -- whatever descriptors it is given, whatever `accept` and `recvmsg` answer, and whatever fewer than 2 ^ 60 ids
  -- epoll_wait returns in the rounds of the loop: `main` reaches its loop; after the rounds managers and handlers point to
  -- each other, and the five handlers and the three netlink sockets are registered, whichever clients came and
  -- went; and the removal of the five then ends without an exit, with none of them registered and the three sockets
  -- still there.
  pub start_program-after_loop :
      (m : ℕ) (d : Descriptors) (fds : ℕ → ℕ) (paths : Paths) (accepts : ℕ → ℤ)
      → (receives : ℕ → ℤ × ℕ) (rounds : List (Option (List ℕ))) → wakes rounds < 2 ^ 60
      → (r : Running) × (start_program m (given d) paths (unstarted fds) ≡ some r)
        × let w = after_loop device_info neighbours m accepts receives rounds r in
          IsLinked w
          × All (JoinedTo m w) r.handlers
          × LocalJoined m r.lldp w
          × ((v : World) × (shut_down m r.handlers w ≡ some v)
              × All (IsUnjoined v) r.handlers
              × LocalJoined m r.lldp v)
  unfolding start_program create_plain is_valid after_loop
  start_program-after_loop m d fds paths accepts receives rounds small =
      let c = wakes rounds in
      let s = with_epoll d fds in
      let g : IsGranted s = record {
        valid = λ n. (fds n, refl);
        set_up = λ n. refl;
        answered = λ n. refl;
      } in
      let fits = unstarted-Fits m (suc (suc (suc (5 + c)))) fds (omega arith) in
      let (l, u, e, granted) = create_lldp_repository_succeeds m (5 + c) s g fits in
      let left : Left m (5 + c) s (some l, u) =
        subst (Left m (5 + c) s) e (create_lldp_repository-Left m (5 + c) s fits) in
      let (f, g', k, b, its, h, apart) = left in
      let i = u.next_object in
      let five = Fits-less m 5 (5 + c) i i u.world (omega arith) (omega arith) h.fits in
      let (o, ran, linked, joins, others, good) = equipped_joins m d u five granted.answered in
      let base = suc (suc (suc (suc (suc i)))) in
      let new =
        five-IsUnjoined (pos d.monitor) (pos d.notify) (pos d.listener) (pos d.clock) (pos d.signal)
          u in
      let ready =
        five-Fits m (5 + c) (pos d.monitor) (pos d.notify) (pos d.listener) (pos d.clock)
          (pos d.signal) u h.fits in
      let room =
        start_up-Fits m c base (vector i) (equipped d u).world o (vector-IsDistinct i) new
          (λ n. unfold create_handler in granted.answered n) ready ran in
      let r : Running = record {
        lldp = l;
        handlers = vector i;
        program = record {
          machine = with_world o (equipped d u);
          unlinked = paths.socket_path ∷ [];
        };
      } in
      let start : Serves base m c base o (hub_of m accepts receives r).clients = record {
        same_manager = refl;
        fits = room;
        same = Same-refl base o;
        apart = tt;
        later = omega arith;
      } in
      let served =
        process_rounds-Serves device_info neighbours base m (suc (suc i)) (suc i) o c 0 rounds
          (hub_of m accepts receives r) (omega arith) start in
      let w = after_loop device_info neighbours m accepts receives rounds r in
      let steady = served.same.steady in
      let joins' = vector-JoinedTo m i o w (λ k less. steady k less) joins in
      let good' : (n : ℕ) → w.answer n ≡ none = λ n. rw served.same.same_answer (good n) in
      let (v, ended, linked', after) =
        shut_down_ends m (vector i) w served.fits.links (vector-IsDistinct i) joins' good' in
      let kept : (j : ℕ) → j < i → w.handlers j ≡ u.world.handlers j =
        λ j less. steady j (omega arith) ∙ others j less in
      let still : (j : ℕ) → j < i → v.handlers j ≡ u.world.handlers j =
        λ j less. ground (arith, after j, vector_below i j less, kept j less) in
      (
        r,
        rw (e, initialize_handlers_equips m d paths u, ran) refl,
        (
          served.fits.links,
          joins',
          LocalJoined-kept m (5 + c) f g' k b l s u w h apart kept,
          (
            v,
            ended,
            All-let_go m (vector i) (vector i) w v (λ j at. at) joins' after,
            LocalJoined-kept m (5 + c) f g' k b l s u v h apart still,
          ),
        ),
      )
