-- ===== src/Opening.antt =====
-- The Create functions that open one descriptor and set it up: those of source/src/netlink_monitor.cc,
-- source/src/client.cc, source/src/lldp_monitor.cc, source/src/event_handlers.cc, source/src/clock_handler.cc and
-- source/src/server_main.cc. What the calls of the operating system return is a parameter.
use link_layer_discovery.Base.{ℕ, ◌≡◌, refl, arith, Bool, false, List, [], ◌∷◌, ◌++◌, if◌then◌else◌}
use link_layer_discovery.Base.Ints.{ℤ, pos, negsuc}
use link_layer_discovery.Descriptor.{is_valid}

-- What the call that opens returns, and whether the one that sets up succeeds.
pub record Answers : Type 0 where
  pub fd : ℤ
  pub set_up : Bool

-- An object with its descriptor, or an error.
pub data Created : Type 0 where
  failed : Created
  created : ℤ → Created

-- ~OwnedFileDescriptor, and close(2): the descriptors that were closed, the last one first.
abbrev pub close_owned : ℤ → List ℕ → List ℕ
close_owned (pos f) closed = f ∷ closed
close_owned (negsuc n) closed = closed

-- NetlinkSocket::Create: `bind` sets up, and its error path closes by hand. What setsockopt answers does not
-- matter.
unfoldable pub create_netlink_socket : Answers → List ℕ → Created × List ℕ
create_netlink_socket a closed =
    if is_valid a.fd
    then if a.set_up then (created a.fd, closed) else (failed, close_owned a.fd closed)
    else (failed, closed)

-- ClientReceiverSocket::Create: `connect` sets up, and the owner of the descriptor closes it.
unfoldable pub create_client_receiver : Answers → List ℕ → Created × List ℕ
create_client_receiver a closed =
    if is_valid a.fd
    then if a.set_up then (created a.fd, closed) else (failed, close_owned a.fd closed)
    else (failed, close_owned a.fd closed)

-- ClientRepository::Create, EthernetLldpMonitor::Create and EventManager::Create: nothing is set up.
unfoldable pub create_plain : ℤ → List ℕ → Created × List ℕ
create_plain fd closed =
    if is_valid fd then (created fd, closed) else (failed, close_owned fd closed)

-- ClockHandler::Create: `timerfd_settime` sets up; the descriptor is an `int`, which nothing closes.
unfoldable pub create_clock : Answers → List ℕ → Created × List ℕ
create_clock a closed =
    if is_valid a.fd
    then if a.set_up then (created a.fd, closed) else (failed, closed)
    else (failed, closed)

-- InterruptHandler::Create: `sigprocmask` comes first.
unfoldable pub create_interrupt_handler : Bool → ℤ → List ℕ → Created × List ℕ
create_interrupt_handler blocked fd closed =
    if blocked
    then if is_valid fd then (created fd, closed) else (failed, closed)
    else (failed, closed)

-- The descriptors that were opened, and that the caller gets.
abbrev pub opened : ℤ → List ℕ
opened (pos f) = f ∷ []
opened (negsuc n) = []

abbrev pub held : Created → List ℕ
held failed = []
held (created fd) = opened fd

-- Every descriptor that was opened is either handed to the caller or was closed once, and no other was closed.
abbrev pub Accounts : List ℕ → List ℕ → Created × List ℕ → Type 0
Accounts new closed result = held result.0 ++ result.1 ≡ new ++ closed

-- Whatever the operating system answers, the Create functions of the netlink socket, of the client's socket, of the
-- objects without a set-up and of the interrupt handler hand out the descriptor that they open or close it
-- once.
pub creates_account :
    (a : Answers) (blocked : Bool) (closed : List ℕ)
    → Accounts (opened a.fd) closed (create_netlink_socket a closed)
      × Accounts (opened a.fd) closed (create_client_receiver a closed)
      × Accounts (opened a.fd) closed (create_plain a.fd closed)
      × Accounts
          (if blocked then opened a.fd else [])
          closed
          (create_interrupt_handler blocked a.fd closed)
unfolding create_netlink_socket create_client_receiver create_plain create_interrupt_handler
    is_valid
creates_account a blocked closed = (ground arith, ground arith, ground arith, ground arith)

-- Where the timer is opened but cannot be set, ClockHandler::Create fails and leaves the descriptor open.
pub create_clock_leaks :
    (a : Answers) (closed : List ℕ) (f : ℕ)
    → a.fd ≡ pos f
    → a.set_up ≡ false
    → create_clock a closed ≡ (failed, closed)
unfolding create_clock is_valid
create_clock_leaks a closed f e refused = rw (e, refused) refl
