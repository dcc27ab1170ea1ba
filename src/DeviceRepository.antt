-- ===== src/DeviceRepository.antt =====
-- DeviceRepository, source/src/device_repository.cc: what the kernel says of the local interfaces, and when it
-- is asked again. The callbacks are those that the constructors of DeviceRepository and LldpRepository set.
pub mod Wiring
pub mod Batch
pub mod AddressDump
pub mod Cycle
pub mod Devices
pub mod Watchdog
pub mod Sync
pub mod Run
use link_layer_discovery.Base.{
  ℕ, ◌≤◌, ◌&&◌, not, ltb, Bool, true, false, List, [], ◌∷◌, length, Option, none, some, ◌==◌,
  if◌then◌else◌, bit_and,
}
use link_layer_discovery.Base.Ints.{ℤ, pos, negsuc, ltb_int, minus, as_int}
use link_layer_discovery.Base.Key.{nat_key}
use link_layer_discovery.Base.Map.{Map, lookup, insert}
use link_layer_discovery.Device.{DeviceData}
use link_layer_discovery.Netlink.{
  Header, TlvView, LinkView, AddrView, PacketView, Kernel, NetlinkSocket,
}
use link_layer_discovery.Netlink.Reader
use Reader.{
  Reader, Notice, silent, device_update, address_update, end_of_dump, dump_errored,
  trigger_device_dump, trigger_ip_dump, handle_device_packet, handle_ip_packet,
}
use link_layer_discovery.Repository.{Repository, update_state}

pub record DeviceRepository : Type 0 where
  pub sync_timeout : ℤ
  pub device_reader : Reader
  pub ip_reader : Reader
  pub devices : Map ℕ DeviceData

-- The repository, the kernel that it asks, and the LldpRepository that listens to it.
pub record World : Type 0 where
  pub local : DeviceRepository
  pub kernel : Kernel
  pub senders : Repository

-- DEVICE_REPOSITORY_SYNC_TIMEOUT and DEVICE_REPOSITORY_EXPEDITE_TIMEOUT.
abbrev pub resync_limit : ℕ
resync_limit = 120

abbrev pub expedite_limit : ℕ
expedite_limit = 2

abbrev pub schedule_resync : World → World
schedule_resync w = record w { local = record (w.local) { sync_timeout = pos resync_limit } }

abbrev pub schedule_expedite_resync : World → World
schedule_expedite_resync w = record w {
  local = record (w.local) { sync_timeout = pos expedite_limit };
}

-- RequestDeviceDump, where the reader is there: an error is only printed.
abbrev pub request_device_dump : World → World
request_device_dump w =
    let (r, k) = trigger_device_dump w.local.device_reader w.kernel in
    record w { local = record (w.local) { device_reader = r }; kernel = k }

-- RequestIpDump
abbrev pub request_ip_dump : World → World
request_ip_dump w =
    let (r, k) = trigger_ip_dump w.local.ip_reader w.kernel in
    record w { local = record (w.local) { ip_reader = r }; kernel = k }

-- IpReaderFinished: the callback is LldpRepository::UpdateState.
unfoldable pub ip_reader_finished : World → World
ip_reader_finished w = record w { senders = update_state w.local.devices w.senders }

-- A string without its last 0.
unfoldable pub drop_nul : List ℕ → List ℕ
drop_nul [] = []
drop_nul (b ∷ []) = if b == 0 then [] else b ∷ []
drop_nul (b ∷ c ∷ l) = b ∷ drop_nul (c ∷ l)

-- `flags & mask`, as a test.
abbrev has_flag : ℕ → ℕ → Bool
has_flag mask flags = not (bit_and flags mask == 0)

-- What `devices_[index]` makes of a missing key.
abbrev pub new_device : DeviceData
new_device = record {
  mac_address = none;
  ipv4_address = none;
  ipv6_address = none;
  interface_name = none;
  device_operational = false;
  if_index = 0;
}

abbrev pub device_or_new : Option DeviceData → DeviceData
device_or_new none = new_device
device_or_new (some d) = d

abbrev pub device_at : ℕ → Map ℕ DeviceData → DeviceData
device_at index m = device_or_new (lookup index m)

-- `devices_[index]`, which the caller changes in place.
unfoldable pub change_device : ℕ → (DeviceData → DeviceData) → Map ℕ DeviceData → Map ℕ DeviceData
change_device index f m = insert index (f (device_at index m)) m

-- The body of the loop of HandleLinkPacket: IFLA_IFNAME is 3 and IFLA_ADDRESS is 1.
unfoldable pub link_attribute : TlvView → DeviceData → DeviceData
link_attribute a d =
    if (a.rta_type == 3) && ltb 1 (length a.value)
    then record d { interface_name = some (drop_nul a.value) }
    else if (a.rta_type == 1) && (length a.value == 6)
    then record d { mac_address = some a.value }
    else d

unfoldable pub link_attributes : List TlvView → DeviceData → DeviceData
link_attributes [] d = d
link_attributes (a ∷ l) d = link_attributes l (link_attribute a d)

-- IFF_UP is 1 and IFF_LOWER_UP is 65536.
unfoldable pub link_device : LinkView → DeviceData → DeviceData
link_device v d = link_attributes v.attributes (record d {
  if_index = v.ifi_index;
  device_operational = has_flag 1 v.ifi_flags && has_flag 65536 v.ifi_flags;
})

-- HandleLinkPacket: RTM_NEWLINK is 16 and ARPHRD_ETHER is 1.
unfoldable pub handle_link_packet : LinkView → Map ℕ DeviceData → Map ℕ DeviceData
handle_link_packet v m =
    if (v.header.nlmsg_type == 16) && (v.ifi_type == 1)
    then change_device v.ifi_index (link_device v) m
    else m

-- The body of the loop of HandleAddressPacket: IFA_ADDRESS is 1, AF_INET is 2, AF_INET6 is 10.
unfoldable pub address_attribute : ℕ → TlvView → DeviceData → DeviceData
address_attribute family a d =
    if not (a.rta_type == 1)
    then d
    else if (family == 2) && (length a.value == 4)
    then record d { ipv4_address = some a.value }
    else if (family == 10) && (length a.value == 16)
    then record d { ipv6_address = some a.value }
    else d

unfoldable pub address_attributes : ℕ → List TlvView → DeviceData → DeviceData
address_attributes family [] d = d
address_attributes family (a ∷ l) d = address_attributes family l (address_attribute family a d)

unfoldable pub address_device : AddrView → DeviceData → DeviceData
address_device v d =
    address_attributes v.ifa_family v.attributes (record d { if_index = v.ifa_index })

-- HandleAddressPacket: RTM_NEWADDR is 20 and IFA_F_SECONDARY is 1.
unfoldable pub handle_address_packet : AddrView → Map ℕ DeviceData → Map ℕ DeviceData
handle_address_packet v m =
    if not (v.header.nlmsg_type == 20)
    then m
    else if not (v.ifa_family == 2) && not (v.ifa_family == 10)
    then m
    else if has_flag 1 v.ifa_flags
    then m
    else change_device v.ifa_index (address_device v) m

-- The callbacks of the device reader.
unfoldable pub device_notice : Notice → World → World
device_notice silent w = w
device_notice (device_update v) w = record w {
  local = record (w.local) { devices = handle_link_packet v w.local.devices };
}
device_notice (address_update v) w = w
device_notice end_of_dump w = request_ip_dump w
device_notice dump_errored w = schedule_expedite_resync w

-- The callbacks of the address reader.
unfoldable pub ip_notice : Notice → World → World
unfolding ip_reader_finished
ip_notice silent w = w
ip_notice (address_update v) w = record w {
  local = record (w.local) { devices = handle_address_packet v w.local.devices };
}
ip_notice (device_update v) w = w
ip_notice end_of_dump w = ip_reader_finished w
ip_notice dump_errored w = schedule_expedite_resync w

-- A packet at the socket of a reader.
unfoldable pub receive_device_packet : PacketView → World → World
receive_device_packet p w =
    let (r, notice) = handle_device_packet p w.local.device_reader in
    device_notice notice (record w { local = record (w.local) { device_reader = r } })

unfoldable pub receive_ip_packet : PacketView → World → World
receive_ip_packet p w =
    let (r, notice) = handle_ip_packet p w.local.ip_reader in
    ip_notice notice (record w { local = record (w.local) { ip_reader = r } })

-- HandleMonitorPackets
abbrev pub receive_monitor_packet : PacketView → World → World
receive_monitor_packet p w = schedule_expedite_resync w

-- The two ticks of the readers.
unfoldable pub tick_device_reader : ℕ → World → World
tick_device_reader delta w =
    let (r, notice) = Reader.tick delta w.local.device_reader in
    device_notice notice (record w { local = record (w.local) { device_reader = r } })

unfoldable pub tick_ip_reader : ℕ → World → World
tick_ip_reader delta w =
    let (r, notice) = Reader.tick delta w.local.ip_reader in
    ip_notice notice (record w { local = record (w.local) { ip_reader = r } })

-- The end of Tick.
unfoldable pub count_sync : ℕ → World → World
count_sync delta w =
    if ltb_int (as_int delta) w.local.sync_timeout
    then record w {
      local = record (w.local) { sync_timeout = minus w.local.sync_timeout (as_int delta) };
    }
    else schedule_resync
        (request_device_dump (record w { local = record (w.local) { sync_timeout = pos 0 } }))

-- Tick
unfoldable pub tick : ℕ → World → World
tick delta w = count_sync delta (tick_ip_reader delta (tick_device_reader delta w))
