-- ===== src/Server/Program/Equipped.antt =====
-- initializeHandlers of source/src/server_main.cc where nothing is refused.
use link_layer_discovery.Base.{
  ℕ, suc, ◌≤◌, ◌≡◌, refl, false, true, List, [], ◌∷◌, none, some, arith, All, ◌>>=◌,
}
use link_layer_discovery.Base.Ints.{ℤ, pos}
use link_layer_discovery.Base.Key.{nat_key}
use link_layer_discovery.Descriptor.{is_valid}
use link_layer_discovery.Opening as Opening
use Opening.{create_plain, create_clock, create_interrupt_handler}
use link_layer_discovery.Client.Listen as Listen
use Listen.{Paths, create_data_socket}
use link_layer_discovery.Events.{Handler, create_handler}
use link_layer_discovery.Server.Shutdown.{listed, IsDistinct}
use link_layer_discovery.Server.Startup.{IsUnjoined, start_up}
use link_layer_discovery.Server.Creation.{Machine, epollin, with_world}
use link_layer_discovery.Server.Creation.Sockets.{Fits, create_handler-Fits}
use link_layer_discovery.Server.Program.{
  Answers, add_object, unwrap_created, unwrap_listener, initialize_handlers,
}

-- The descriptors that the kernel hands out where it refuses nothing.
pub record Descriptors : Type 0 where
  pub epoll : ℕ
  pub monitor : ℕ
  pub notify : ℕ
  pub lock : ℕ
  pub listener : ℕ
  pub clock : ℕ
  pub signal : ℕ

abbrev pub given : Descriptors → Answers
given d = record {
  epoll = pos d.epoll;
  monitor = pos d.monitor;
  notify = pos d.notify;
  listen = record {
    lock_fd = pos d.lock;
    locked = true;
    socket_fd = pos d.listener;
    bound = true;
    listening = true;
  };
  clock = record { fd = pos d.clock; set_up = true };
  blocked = true;
  signal = pos d.signal;
}

-- The vector of handlers, where the first of them gets the number `i`.
abbrev pub vector : ℕ → List ℕ
vector i = suc (suc (suc i)) ∷ i ∷ suc i ∷ suc (suc i) ∷ suc (suc (suc (suc i))) ∷ []

pub vector-IsDistinct : (i : ℕ) → IsDistinct (vector i)
vector-IsDistinct i = ground arith

pub vector_below : (i k : ℕ) → suc k ≤ i → listed k (vector i) ≡ false
vector_below i k less = ground arith

-- The five handlers are made.
abbrev pub five : ℤ → ℤ → ℤ → ℤ → ℤ → Machine → Machine
five a b c d e s = add_object e (add_object d (add_object c (add_object b (add_object a s))))

pub five-Fits :
    (m n : ℕ) (a b c d e : ℤ) (s : Machine)
    → Fits m n s.next_object s.world
    → Fits m n (five a b c d e s).next_object (five a b c d e s).world
five-Fits m n a b c d e s f =
    let i = s.next_object in
    let fa = create_handler-Fits m n i epollin a s.world f in
    let fb = create_handler-Fits m n (suc i) epollin b _ fa in
    let fc = create_handler-Fits m n (suc (suc i)) epollin c _ fb in
    let fd = create_handler-Fits m n (suc (suc (suc i))) epollin d _ fc in
    create_handler-Fits m n (suc (suc (suc (suc i)))) epollin e _ fd

pub five-IsUnjoined :
    (a b c d e : ℤ) (s : Machine) → All (IsUnjoined (five a b c d e s).world) (vector s.next_object)
unfolding create_handler
five-IsUnjoined a b c d e s =
    let new = λ (fd : ℤ).
      let h : Handler = record {
        event_manager = none;
        handle = 0;
        socket = fd;
        events = epollin;
      } in
      h in
    (
      (new d, ground arith, refl),
      (
        (new a, ground arith, refl),
        (
          (new b, ground arith, refl),
          ((new c, ground arith, refl), ((new e, ground arith, refl), tt)),
        ),
      ),
    )

pub five_others :
    (a b c d e : ℤ) (s : Machine) (k : ℕ)
    → suc k ≤ s.next_object
    → (five a b c d e s).world.handlers k ≡ s.world.handlers k
unfolding create_handler
five_others a b c d e s k less = ground arith

abbrev pub equipped : Descriptors → Machine → Machine
equipped d u =
    record (five (pos d.monitor) (pos d.notify) (pos d.listener) (pos d.clock) (pos d.signal) u) {
      opened_descriptors =
          d.signal ∷ d.clock ∷ d.listener ∷ d.lock ∷ d.notify ∷ d.monitor ∷ u.opened_descriptors;
    }

-- initializeHandlers, where nothing is refused: the five handlers, and then the loop.
pub initialize_handlers_equips :
    (m : ℕ) (d : Descriptors) (paths : Paths) (u : Machine)
    → initialize_handlers m (given d) paths (record { machine = u; unlinked = [] }) ≡ (
        start_up m (vector u.next_object) (equipped d u).world >>= λ w. some (
          vector u.next_object,
          record { machine = with_world w (equipped d u); unlinked = paths.socket_path ∷ [] },
        ))
unfolding initialize_handlers unwrap_created unwrap_listener create_plain create_clock
    create_interrupt_handler Listen.create create_data_socket is_valid
initialize_handlers_equips m d paths u = refl
