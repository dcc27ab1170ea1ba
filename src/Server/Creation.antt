-- ===== src/Server/Creation.antt =====
-- How LldpRepository::Create, source/src/lldp_repository.cc, builds the local side: the Create functions of
-- source/src/device_repository.cc, source/src/device_reader.cc and source/src/ip_reader.cc, each of which gives back
-- what the ones before it made where it fails. The callbacks that the constructors set are in
-- Netlink.Reader.Wiring and DeviceRepository.Wiring.
pub mod Sockets
pub mod Held
pub mod Joined
pub mod Granted
pub mod Repositories
use link_layer_discovery.Base.{ℕ, suc, List, [], ◌∷◌, ◌++◌, Option, none, some}
use link_layer_discovery.Base.Ints.{ℤ}
use link_layer_discovery.Opening as Opening
use Opening.{
  Answers, Created, failed, created, opened, close_owned, create_netlink_socket, create_plain,
}
use link_layer_discovery.Events.{World, Handler, Added, added, add, create_handler, destroy_handler}
use link_layer_discovery.Events

-- The program and its kernel: what the n-th attempt to open a socket is answered, how many there were, and the
-- descriptors that were opened and closed, the last one first. Objects are numbered as they are made.
pub record Machine : Type 0 where
  pub world : World
  pub next_object : ℕ
  pub sockets : ℕ → Answers
  pub attempts : ℕ
  pub opened_descriptors : List ℕ
  pub closed_descriptors : List ℕ

-- EPOLLIN
abbrev pub epollin : ℕ
epollin = 1

abbrev pub answer_of : Machine → Answers
answer_of s = s.sockets s.attempts

abbrev pub attempt : Machine → Machine
attempt s = record s {
  attempts = suc s.attempts;
  opened_descriptors = opened (answer_of s).fd ++ s.opened_descriptors;
}

abbrev pub with_closed : List ℕ → Machine → Machine
with_closed closed s = record s { closed_descriptors = closed }

abbrev pub with_world : World → Machine → Machine
with_world w s = record s { world = w }

make_socket : Machine → Created × List ℕ → Option ℕ × Machine
make_socket s (failed, closed) = (none, with_closed closed s)
make_socket s (created fd, closed) = (
  some s.next_object,
  record s {
    world = create_handler s.next_object fd epollin s.world;
    next_object = suc s.next_object;
    closed_descriptors = closed;
  },
)

-- NetlinkSocket::Create, with the object that it makes.
unfoldable pub create_socket : Machine → Option ℕ × Machine
unfolding make_socket create_netlink_socket
create_socket s = make_socket (attempt s) (create_netlink_socket (answer_of s) s.closed_descriptors)

destroy_found : ℕ → Option Handler → Machine → Machine
destroy_found h none s = s
destroy_found h (some d) s = record s {
  world = destroy_handler h d s.world;
  closed_descriptors = close_owned d.socket s.closed_descriptors;
}

-- The last pointer to a socket goes: its descriptor is closed, and then it leaves its manager.
unfoldable pub drop_socket : ℕ → Machine → Machine
unfolding destroy_found
drop_socket h s = destroy_found h (s.world.handlers h) s

-- What a reader's Create returns after Add.
pub keep_added : ℕ → Machine → Added × World → Option ℕ × Machine
keep_added h s (Events.failed error, w) = (none, drop_socket h (with_world w s))
keep_added h s (added id, w) = (some h, with_world w s)

add_found : ℕ → ℕ → Option Handler → Machine → Option ℕ × Machine
unfolding keep_added
add_found m h none s = (none, s)
add_found m h (some d) s = keep_added h s (add m h d s.world)

add_created : ℕ → Option ℕ × Machine → Option ℕ × Machine
unfolding add_found
add_created m (none, s) = (none, s)
add_created m (some h, s) = add_found m h (s.world.handlers h) s

-- The body that DeviceReader::Create and IpReader::Create share, and with which DeviceRepository::Create begins.
unfoldable pub create_joined : ℕ → Machine → Option ℕ × Machine
unfolding add_created
create_joined m s = add_created m (create_socket s)

-- DeviceReader::Create; a reader goes by its socket.
abbrev pub create_device_reader : ℕ → Machine → Option ℕ × Machine
create_device_reader m s = create_joined m s

-- IpReader::Create
abbrev pub create_ip_reader : ℕ → Machine → Option ℕ × Machine
create_ip_reader m s = create_joined m s

-- The sockets of a DeviceRepository.
pub record LocalSockets : Type 0 where
  pub monitor : ℕ
  pub device_reader : ℕ
  pub ip_reader : ℕ

with_ip_reader : ℕ → ℕ → Option ℕ × Machine → Option LocalSockets × Machine
with_ip_reader monitor device (none, s) = (none, drop_socket monitor (drop_socket device s))
with_ip_reader monitor device (some ip, s) =
    (some (record { monitor = monitor; device_reader = device; ip_reader = ip }), s)

with_device_reader : ℕ → ℕ → Option ℕ × Machine → Option LocalSockets × Machine
unfolding with_ip_reader
with_device_reader m monitor (none, s) = (none, drop_socket monitor s)
with_device_reader m monitor (some device, s) = with_ip_reader monitor device (create_ip_reader m s)

with_monitor : ℕ → Option ℕ × Machine → Option LocalSockets × Machine
unfolding with_device_reader
with_monitor m (none, s) = (none, s)
with_monitor m (some monitor, s) = with_device_reader m monitor (create_device_reader m s)

-- DeviceRepository::Create
unfoldable pub create_device_repository : ℕ → Machine → Option LocalSockets × Machine
unfolding with_monitor
create_device_repository m s = with_monitor m (create_joined m s)

-- ~DeviceRepository: the members go in the reverse of their order.
unfoldable pub drop_device_repository : LocalSockets → Machine → Machine
drop_device_repository r s =
    drop_socket r.monitor (drop_socket r.device_reader (drop_socket r.ip_reader s))

-- What an LldpRepository owns.
pub record LldpParts : Type 0 where
  pub local_sockets : LocalSockets
  pub broadcast : ℤ

with_broadcast : LocalSockets → Machine → Created × List ℕ → Option LldpParts × Machine
with_broadcast r s (failed, closed) = (none, drop_device_repository r (with_closed closed s))
with_broadcast r s (created fd, closed) =
    (some (record { local_sockets = r; broadcast = fd }), with_closed closed s)

with_devices : Option LocalSockets × Machine → Option LldpParts × Machine
unfolding with_broadcast create_plain
with_devices (none, s) = (none, s)
with_devices (some r, s) =
    with_broadcast r (attempt s) (create_plain (answer_of s).fd s.closed_descriptors)

-- LldpRepository::Create
unfoldable pub create_lldp_repository : ℕ → Machine → Option LldpParts × Machine
unfolding with_devices
create_lldp_repository m s = with_devices (create_device_repository m s)
