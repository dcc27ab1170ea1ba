-- ===== src/DeviceRepository/Run.antt =====
-- A run of the local side: packets at the three netlink sockets, and the clock, in any order.
pub mod Kept
use link_layer_discovery.Base.{ℕ, List, [], ◌∷◌}
use link_layer_discovery.Netlink.{PacketView}
use link_layer_discovery.Repository.{tick_each}
use link_layer_discovery.DeviceRepository.{
  World, receive_device_packet, receive_ip_packet, receive_monitor_packet, tick,
}

pub data Event : Type 0 where
  device_packet : PacketView → Event
  ip_packet : PacketView → Event
  monitor_packet : PacketView → Event
  clock : ℕ → Event

-- LldpRepository::Tick: the device repository, then each sender.
unfoldable pub tick_local : ℕ → World → World
tick_local delta w =
    let ticked = tick delta w in
    record ticked { senders = tick_each delta ticked.senders.0 ticked.senders.1 }

unfoldable pub handle : Event → World → World
handle (device_packet p) w = receive_device_packet p w
handle (ip_packet p) w = receive_ip_packet p w
handle (monitor_packet p) w = receive_monitor_packet p w
handle (clock delta) w = tick_local delta w

unfoldable pub run : List Event → World → World
run [] w = w
run (e ∷ l) w = run l (handle e w)
