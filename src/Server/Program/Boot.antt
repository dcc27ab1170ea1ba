-- ===== src/Server/Program/Boot.antt =====
-- The server comes up, and down again: `main` of source/src/server_main.cc.
use link_layer_discovery.Base.{
  ℕ, ◌^◌, ◌<◌, ◌≡◌, refl, subst, true, List, [], ◌∷◌, none, some, arith, All, tests, ltb,
  Bool-cases, inl, inr, ◌∙◌,
}
use link_layer_discovery.Base.Ints.{pos}
use link_layer_discovery.Base.Key.{nat_key}
use link_layer_discovery.Base.Map.{Map, lookup}
use link_layer_discovery.Descriptor.{is_valid}
use link_layer_discovery.Opening.{create_plain}
use link_layer_discovery.Client.Listen.{Paths}
use link_layer_discovery.Events.{World, create_handler}
use link_layer_discovery.Events.Links.{IsLinked}
use link_layer_discovery.Server.Shutdown.{JoinedTo, shut_down, shut_down_ends}
use link_layer_discovery.Server.Startup.{IsUnjoined, start_up, start_up_joins, All-let_go}
use link_layer_discovery.Server.Creation.{Machine, LldpParts, with_world}
use link_layer_discovery.Server.Creation.Sockets.{Fits}
use link_layer_discovery.Server.Creation.Held.{Holds}
use link_layer_discovery.Server.Creation.Repositories.{
  Left, AreApart, sockets_held, create_lldp_repository-Left,
}
use link_layer_discovery.Server.Creation.Granted.{IsGranted, create_lldp_repository_succeeds}
use link_layer_discovery.Server.Program.{Running, start_program}
use link_layer_discovery.Server.Program.Equipped.{
  Descriptors, given, vector, vector-IsDistinct, vector_below, five-Fits, five-IsUnjoined,
  five_others, equipped, initialize_handlers_equips,
}

-- Before `main`: no object, and a kernel that answers the n-th attempt to open a socket by a descriptor and
-- refuses nothing.
abbrev pub unstarted : (ℕ → ℕ) → Machine
unstarted fds = record {
  world = record {
    managers = λ m. record { registered_events = []; event_id_counter = 1 };
    handlers = λ h. none;
    answer = λ n. none;
    calls = [];
  };
  next_object = 0;
  sockets = λ n. record { fd = pos (fds n); set_up = true };
  attempts = 0;
  opened_descriptors = [];
  closed_descriptors = [];
}

pub unstarted-Fits : (m n : ℕ) (fds : ℕ → ℕ) → n < 2 ^ 62 → Fits m n 0 (unstarted fds).world
unfolding lookup
unstarted-Fits m n fds small = record {
  links = record {
    linked = λ i id h d at alive. absurd (ground (arith, alive));
    registered = λ h i d alive at. absurd (ground (arith, alive));
    no_zero = λ i. refl;
  };
  room = record { above = λ q le. refl; positive = omega arith; bounded = omega arith };
  ascending = tt;
  unborn =
      λ k later. record { unused = refl; unregistered = λ i id at. absurd (ground (arith, at)) };
}

-- The machine with the descriptor of the manager.
abbrev pub with_epoll : Descriptors → (ℕ → ℕ) → Machine
with_epoll d fds = record (unstarted fds) { opened_descriptors = d.epoll ∷ [] }

-- A socket that LldpRepository::Create made is not among the handlers that are made later.
joined_before :
    (m n k fd : ℕ) (owned : List ℕ) (held : Map ℕ ℕ) (s t : Machine)
    → Holds m n owned held s t
    → lookup k held ≡ some fd
    → JoinedTo m t.world k × (k < t.next_object)
joined_before m n k fd owned held s t h at =
    let (d, there, to, its) = h.joined k fd at in
    elim (Bool-cases (ltb k t.next_object)) [
      | inl less ↦ ((d, there, to), omega tests)
      | inr more ↦ absurd (ground (arith, there, (h.fits.unborn k (ground (arith, more))).unused))
    ]

pub joined_same :
    (m k : ℕ) (v w : World) → v.handlers k ≡ w.handlers k → JoinedTo m w k → JoinedTo m v k
joined_same m k v w same (d, there, to) = (d, rw same there, to)

abbrev pub world_of : Running → World
world_of r = r.program.machine.world

-- The sockets of the local side are registered.
abbrev pub LocalJoined : ℕ → LldpParts → World → Type 0
LocalJoined m l w =
    JoinedTo m w l.local_sockets.monitor
    × JoinedTo m w l.local_sockets.device_reader
    × JoinedTo m w l.local_sockets.ip_reader

-- They keep their places in a world that has the same handlers below `next`.
pub LocalJoined-kept :
    (m n f g k b : ℕ) (l : LldpParts) (s u : Machine) (w : World)
    → Holds m n (b ∷ []) (sockets_held l.local_sockets f g k) s u
    → AreApart l.local_sockets f g k
    → ((j : ℕ) → j < u.next_object → w.handlers j ≡ u.world.handlers j)
    → LocalJoined m l w
unfolding lookup
LocalJoined-kept m n f g k b l s u w h apart same =
    let r = l.local_sockets in
    let held = sockets_held r f g k in
    let kept = λ (j fd : ℕ) (at : lookup j held ≡ some fd).
      let (joined, less) = joined_before m n j fd (b ∷ []) held s u h at in
      joined_same m j w u.world (same j less) joined in
    (
      kept r.monitor f (ground (arith, apart.0, apart.1)),
      kept r.device_reader g (ground (arith, apart.0)),
      kept r.ip_reader k (ground arith),
    )

-- After initializeHandlers.
pub equipped_joins :
    (m : ℕ) (d : Descriptors) (u : Machine)
    → Fits m 5 u.next_object u.world
    → ((n : ℕ) → u.world.answer n ≡ none)
    → (v : World) × (start_up m (vector u.next_object) (equipped d u).world ≡ some v)
      × IsLinked v
      × All (JoinedTo m v) (vector u.next_object)
      × ((k : ℕ) → k < u.next_object → v.handlers k ≡ u.world.handlers k)
      × ((n : ℕ) → v.answer n ≡ none)
equipped_joins m d u fits good =
    let monitor = pos d.monitor in
    let notify = pos d.notify in
    let listener = pos d.listener in
    let clock = pos d.clock in
    let signal = pos d.signal in
    let i = u.next_object in
    let ready = five-Fits m 5 monitor notify listener clock signal u fits in
    let new = five-IsUnjoined monitor notify listener clock signal u in
    let good' : (n : ℕ) → (equipped d u).world.answer n ≡ none =
      λ n. unfold create_handler in good n in
    let (v, ran, linked, joins, others, same) =
      start_up_joins m (vector i) (equipped d u).world ready.links (vector-IsDistinct i) new
        ready.room good' in
    (
      v,
      ran,
      linked,
      joins,
      λ k less.
          others k (vector_below i k less)
          ∙ five_others monitor notify listener clock signal u k less,
      λ n. rw same (good' n),
    )

-- Where the kernel refuses nothing, the server comes up, whatever descriptors it is given: `main` reaches its loop with the
-- links in order and with the five handlers and the three netlink sockets registered; and removing the handlers there,
-- before any round, ends without an exit, with no handler of the vector registered and the three sockets still there.
pub start_program-shut_down :
    (m : ℕ) (d : Descriptors) (fds : ℕ → ℕ) (paths : Paths)
    → (r : Running) × (start_program m (given d) paths (unstarted fds) ≡ some r)
      × IsLinked (world_of r)
      × All (JoinedTo m (world_of r)) r.handlers
      × LocalJoined m r.lldp (world_of r)
      × ((v : World) × (shut_down m r.handlers (world_of r) ≡ some v)
          × All (IsUnjoined v) r.handlers
          × LocalJoined m r.lldp v)
unfolding start_program create_plain is_valid
start_program-shut_down m d fds paths =
    let s = with_epoll d fds in
    let g : IsGranted s = record {
      valid = λ n. (fds n, refl);
      set_up = λ n. refl;
      answered = λ n. refl;
    } in
    let fits = unstarted-Fits m 8 fds (omega arith) in
    let (l, u, e, granted) = create_lldp_repository_succeeds m 5 s g fits in
    let left : Left m 5 s (some l, u) =
      subst (Left m 5 s) e (create_lldp_repository-Left m 5 s fits) in
    let (f, g', k, b, its, h, apart) = left in
    let (w, ran, linked, joins, others, good) = equipped_joins m d u h.fits granted.answered in
    let i = u.next_object in
    let (v, ended, linked', after) =
      shut_down_ends m (vector i) w linked (vector-IsDistinct i) joins good in
    let still : (j : ℕ) → j < i → v.handlers j ≡ u.world.handlers j =
      λ j less. ground (arith, after j, vector_below i j less, others j less) in
    (
      record {
        lldp = l;
        handlers = vector i;
        program = record {
          machine = with_world w (equipped d u);
          unlinked = paths.socket_path ∷ [];
        };
      },
      rw (e, initialize_handlers_equips m d paths u, ran) refl,
      linked,
      joins,
      LocalJoined-kept m 5 f g' k b l s u w h apart others,
      (
        v,
        ended,
        All-let_go m (vector i) (vector i) w v (λ j at. at) joins after,
        LocalJoined-kept m 5 f g' k b l s u v h apart still,
      ),
    )
