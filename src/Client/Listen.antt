-- ===== src/Client/Listen.antt =====
-- ClientListenSocket::Create and createDataSocket of source/src/client.cc: the lock file, the socket, and what every error path
-- closes and removes. What the calls of the operating system return is a parameter.
use link_layer_discovery.Base.{ℕ, ◌≡◌, refl, arith, Bool, false, List, [], ◌∷◌, ◌++◌, if◌then◌else◌}
use link_layer_discovery.Base.Ints.{ℤ, pos, negsuc}
use link_layer_discovery.Descriptor.{is_valid}
use link_layer_discovery.Descriptor.Deleting.{Deleting, Calls, close_member, destroy}

-- What `open` of the lock file, `flock`, `socket`, `bind` and `listen` answer.
pub record Answers : Type 0 where
  pub lock_fd : ℤ
  pub locked : Bool
  pub socket_fd : ℤ
  pub bound : Bool
  pub listening : Bool

-- SOCKET_PATH and SOCKET_LOCK
pub record Paths : Type 0 where
  pub socket_path : List ℕ
  pub lock_path : List ℕ

-- The two descriptors of a ClientListenSocket, or an error.
pub data Created : Type 0 where
  failed : Created
  created : Deleting → Deleting → Created

pub data DataSocket : Type 0 where
  no_socket : DataSocket
  data_socket : Deleting → DataSocket

-- prepareDirectory, on the files.
abbrev prepare_directory : Paths → Calls → Calls
prepare_directory p c = record c { unlinked = p.socket_path ∷ c.unlinked }

-- After `bind`: the descriptor deletes its file from now on.
listen_on : Answers → Deleting → Calls → DataSocket × Calls
listen_on a d c = if a.listening then (data_socket d, c) else (no_socket, destroy d c)

bind_socket : Answers → Paths → Calls → DataSocket × Calls
bind_socket a p c =
    if a.bound
    then listen_on a (record { fd = a.socket_fd; path = p.socket_path }) c
    else (no_socket, close_member a.socket_fd c)

-- createDataSocket
unfoldable pub create_data_socket : Answers → Paths → Calls → DataSocket × Calls
unfolding listen_on bind_socket
create_data_socket a p c =
    if is_valid a.socket_fd
    then bind_socket a p (prepare_directory p c)
    else (no_socket, prepare_directory p c)

abbrev pub lock_of : Answers → Paths → Deleting
lock_of a p = record { fd = a.lock_fd; path = p.lock_path }

-- The end of Create: where there is no socket the lock file's descriptor goes with the function.
after_socket : Deleting → DataSocket × Calls → Created × Calls
after_socket lock (no_socket, c) = (failed, destroy lock c)
after_socket lock (data_socket d, c) = (created lock d, c)

-- ClientListenSocket::Create
unfoldable pub create : Answers → Paths → Calls → Created × Calls
unfolding after_socket
create a p c =
    if is_valid a.lock_fd
    then if a.locked
      then after_socket (lock_of a p) (create_data_socket a p c)
      else (failed, destroy (lock_of a p) c)
    else (failed, destroy (lock_of a p) c)

-- The descriptors that were opened: the socket only where the lock was taken.
abbrev pub opened : ℤ → List ℕ
opened (pos f) = f ∷ []
opened (negsuc n) = []

abbrev pub opened_socket : Answers → ℤ → List ℕ
opened_socket a (negsuc n) = []
opened_socket a (pos f) = if a.locked then opened a.socket_fd else []

abbrev pub all_opened : Answers → List ℕ
all_opened a = opened a.lock_fd ++ opened_socket a a.lock_fd

-- The descriptors that the caller gets.
abbrev pub held : Created → List ℕ
held failed = []
held (created lock d) = opened lock.fd ++ opened d.fd

-- Whatever the calls answer, every descriptor that Create has opened is either handed to the caller or was closed
-- once, the socket before the lock, and no other is closed.
pub create-closes :
    (a : Answers) (p : Paths) (c : Calls)
    → held (create a p c).0 ++ (create a p c).1.closed ≡ all_opened a ++ c.closed
unfolding create create_data_socket destroy is_valid
create-closes a p c = ground arith

-- Where the lock file can be opened but another server holds the lock, Create fails, and the lock file of that server is
-- removed.
pub create_locked :
    (a : Answers) (p : Paths) (c : Calls) (f : ℕ)
    → a.lock_fd ≡ pos f
    → a.locked ≡ false
    → ((create a p c).0 ≡ failed) × ((create a p c).1.unlinked ≡ p.lock_path ∷ c.unlinked)
unfolding create destroy is_valid
create_locked a p c f e refused = rw (e, refused) (refl, refl)
