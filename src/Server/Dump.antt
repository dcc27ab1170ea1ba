-- ===== src/Server/Dump.antt =====
-- What the server prints: ClockHandler::DumpInfo of source/src/clock_handler.cc.
pub mod Text
use link_layer_discovery.Base.{ℕ, List, [], ◌∷◌, ◌++◌, Option, none, some, length, if◌then◌else◌}
use link_layer_discovery.Base.Map.{Map}
use link_layer_discovery.Base.Stream.{Stream, codes, put_text, put_number}
use link_layer_discovery.Device.{DeviceData}
use link_layer_discovery.Sender.{LldpSender}
use link_layer_discovery.Monitor.Entry.{NeighbourEntry}
use link_layer_discovery.Monitor.Neighbours.{PortMap, NeighbourList}
use link_layer_discovery.Lldp.Log.{Ntop, log_mac, log_ipv4, log_ipv6, log_port}

-- CLEAR_SCREEN
abbrev pub clear_screen : List ℕ
clear_screen = 27 ∷ codes "[2J"

-- `value_or("---")`
abbrev pub name_or_dashes : Option (List ℕ) → List ℕ
name_or_dashes none = codes "---"
name_or_dashes (some name) = name

abbrev pub tab : Stream → Stream
tab s = put_text (codes "\t") s

abbrev pub newline : Stream → Stream
newline s = put_text (codes "\n") s

unfoldable pub dump_mac : Option (List ℕ) → Stream → Stream
dump_mac none s = put_text (codes "None") s
dump_mac (some mac) s = log_mac mac s

-- dumpDevice
unfoldable pub dump_device : Ntop → DeviceData → Stream → Stream
dump_device ntop d s =
    let named =
      tab (put_text (name_or_dashes d.interface_name) (tab (put_number 0 d.if_index s))) in
    if d.device_operational
    then newline (
        log_ipv6 ntop d.ipv6_address
          (tab (log_ipv4 ntop d.ipv4_address (tab (dump_mac d.mac_address named)))))
    else put_text (codes "Device down\n") named

-- dumpNeighbourEntry
unfoldable pub dump_neighbour_entry : Ntop → NeighbourEntry → Stream → Stream
dump_neighbour_entry ntop e s =
    let lived = tab (put_number 0 e.time_to_live (tab (log_port ntop e.port_id s))) in
    tab (log_ipv6 ntop e.ipv6_address (tab (log_ipv4 ntop e.ipv4_address lived)))

-- The loops of DumpInfo.
unfoldable pub dump_devices : Ntop → Map ℕ LldpSender → Stream → Stream
dump_devices ntop [] s = s
dump_devices ntop ((index, sender) ∷ m) s =
    dump_devices ntop m (dump_device ntop sender.device_data s)

unfoldable pub dump_port_map : Ntop → List ℕ → PortMap → Stream → Stream
dump_port_map ntop chassis [] s = s
dump_port_map ntop chassis ((port, e) ∷ ports) s =
    dump_port_map ntop chassis ports
      (newline (dump_neighbour_entry ntop e (tab (put_text chassis s))))

unfoldable pub dump_chassis_map : Ntop → NeighbourList → Stream → Stream
dump_chassis_map ntop [] s = s
dump_chassis_map ntop ((chassis, ports) ∷ m) s =
    dump_chassis_map ntop m (dump_port_map ntop chassis ports s)

abbrev pub device_heading : List ℕ
device_heading = codes "\nDevice data:\nIDX\tName\tMAC\tIPv4\tIPv6\t\n"

abbrev pub neighbour_heading : List ℕ
neighbour_heading = codes " chassis\n\n\nNeighbours:\nChassis\tPort\tTTL\tIPv4\tIPv6\t\n"

-- DumpInfo, with what getMachineId returns.
unfoldable pub dump_info : Ntop → List ℕ → Map ℕ LldpSender → NeighbourList → Stream → Stream
dump_info ntop machine_id senders m s =
    let headed = put_text (((clear_screen ++ codes "My Id: ") ++ machine_id) ++ device_heading) s in
    let devices = put_text (codes "\n\nFound ") (dump_devices ntop senders headed) in
    dump_chassis_map ntop m (put_text neighbour_heading (put_number 0 (length m) devices))
