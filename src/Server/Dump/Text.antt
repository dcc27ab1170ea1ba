-- ===== src/Server/Dump/Text.antt =====
-- What DumpInfo of source/src/clock_handler.cc prints, as a text.
use link_layer_discovery.Base.{
  ℕ, ◌≡◌, ◌∙◌, false, List, [], ◌∷◌, ◌++◌, Option, none, some, arith, All, length, if◌then◌else◌,
}
use link_layer_discovery.Base.Words.{IsByte}
use link_layer_discovery.Base.Map.{Map}
use link_layer_discovery.Base.Stream.{
  Stream, codes, put_text, number, Prints, put_text-Prints, put_number-Prints, Prints-append,
  Prints-nothing,
}
use link_layer_discovery.Device.{DeviceData}
use link_layer_discovery.Sender.{LldpSender}
use link_layer_discovery.Monitor.Entry.{NeighbourEntry}
use link_layer_discovery.Monitor.Neighbours.{PortMap, NeighbourList}
use link_layer_discovery.Lldp.Log.{Ntop}
use link_layer_discovery.Lldp.Log.Text.{
  mac_text, log_mac-Prints, ipv4_text, ipv6_text, log_ipv4-Prints, log_ipv6-Prints, port_kind,
  kind_text, log_port-Prints,
}
use link_layer_discovery.Server.Dump.{
  clear_screen, name_or_dashes, tab, newline, dump_mac, dump_device, dump_neighbour_entry,
  dump_devices, dump_port_map, dump_chassis_map, device_heading, neighbour_heading, dump_info,
}

-- Cells with tabs between them.
abbrev pub cells : List ℕ → List (List ℕ) → List ℕ
cells first [] = first
cells first (cell ∷ l) = cells ((first ++ codes "\t") ++ cell) l

abbrev pub mac_cell : Option (List ℕ) → List ℕ
mac_cell none = codes "None"
mac_cell (some mac) = mac_text mac

abbrev pub device_text : Ntop → DeviceData → List ℕ
device_text ntop d =
    if d.device_operational
    then cells (number false d.if_index) (
        name_or_dashes d.interface_name
        ∷ mac_cell d.mac_address
        ∷ ipv4_text ntop d.ipv4_address
        ∷ ipv6_text ntop d.ipv6_address
        ∷ [])
      ++ codes "\n"
    else cells (number false d.if_index)
        (name_or_dashes d.interface_name ∷ codes "Device down\n" ∷ [])

abbrev pub entry_text : Ntop → List ℕ → NeighbourEntry → List ℕ
entry_text ntop chassis e =
    (cells chassis (
        kind_text ntop (port_kind e.port_id)
        ∷ number false e.time_to_live
        ∷ ipv4_text ntop e.ipv4_address
        ∷ ipv6_text ntop e.ipv6_address
        ∷ [])
      ++ codes "\t")
    ++ codes "\n"

abbrev pub devices_text : Ntop → Map ℕ LldpSender → List ℕ
devices_text ntop [] = []
devices_text ntop ((index, sender) ∷ m) = device_text ntop sender.device_data ++ devices_text ntop m

abbrev pub ports_text : Ntop → List ℕ → PortMap → List ℕ
ports_text ntop chassis [] = []
ports_text ntop chassis ((port, e) ∷ ports) =
    entry_text ntop chassis e ++ ports_text ntop chassis ports

abbrev pub chassis_text : Ntop → NeighbourList → List ℕ
chassis_text ntop [] = []
chassis_text ntop ((chassis, ports) ∷ m) = ports_text ntop chassis ports ++ chassis_text ntop m

-- Addresses and ports are bytes.
abbrev pub HasMac : Option (List ℕ) → Type 0
HasMac none = Unit {0}
HasMac (some mac) = All IsByte mac

abbrev pub DeviceBytes : ℕ × LldpSender → Type 0
DeviceBytes (index, sender) = HasMac sender.device_data.mac_address

abbrev pub EntryBytes : List ℕ × NeighbourEntry → Type 0
EntryBytes (port, e) = All IsByte e.port_id

abbrev pub ChassisBytes : List ℕ × PortMap → Type 0
ChassisBytes (chassis, ports) = All EntryBytes ports

Prints-tab :
    {xs ys : List ℕ} {s t u : Stream}
    → Prints xs s t
    → Prints ys (tab t) u
    → Prints ((xs ++ codes "\t") ++ ys) s u
Prints-tab {t = t} p q = Prints-append (Prints-append p (put_text-Prints (codes "\t") t)) q

dump_mac-Prints :
    (mac : Option (List ℕ)) (s : Stream) → HasMac mac → Prints (mac_cell mac) s (dump_mac mac s)
unfolding dump_mac
dump_mac-Prints none s bytes = put_text-Prints (codes "None") s
dump_mac-Prints (some mac) s bytes = log_mac-Prints mac s bytes

dump_device-Prints :
    (ntop : Ntop) (d : DeviceData) (s : Stream)
    → HasMac d.mac_address
    → s.hex ≡ false
    → Prints (device_text ntop d) s (dump_device ntop d s)
unfolding dump_device
dump_device-Prints ntop d s bytes decimal =
    let index = put_number-Prints d.if_index s decimal in
    let name = Prints-tab index (put_text-Prints (name_or_dashes d.interface_name) _) in
    let down = Prints-tab name (put_text-Prints (codes "Device down\n") _) in
    let mac = Prints-tab name (dump_mac-Prints d.mac_address _ bytes) in
    let ipv4 = Prints-tab mac (log_ipv4-Prints ntop d.ipv4_address _) in
    let ipv6 = Prints-tab ipv4 (log_ipv6-Prints ntop d.ipv6_address _) in
    let up = Prints-append ipv6 (put_text-Prints (codes "\n") _) in ground (arith, down, up)

dump_entry-Prints :
    (ntop : Ntop) (chassis : List ℕ) (e : NeighbourEntry) (s : Stream)
    → All IsByte e.port_id
    → s.hex ≡ false
    → Prints
        (entry_text ntop chassis e)
        s
        (newline (dump_neighbour_entry ntop e (tab (put_text chassis s))))
unfolding dump_neighbour_entry
dump_entry-Prints ntop chassis e s bytes decimal =
    let first = put_text-Prints chassis s in
    let port = Prints-tab first (log_port-Prints ntop e.port_id _ bytes) in
    let base = Prints-append port (put_text-Prints (codes "\t") _) in
    let lived = Prints-tab port (put_number-Prints e.time_to_live _ (base.same_base ∙ decimal)) in
    let ipv4 = Prints-tab lived (log_ipv4-Prints ntop e.ipv4_address _) in
    let ipv6 = Prints-tab ipv4 (log_ipv6-Prints ntop e.ipv6_address _) in
    Prints-append (Prints-append ipv6 (put_text-Prints (codes "\t") _))
      (put_text-Prints (codes "\n") _)

dump_devices-Prints :
    (ntop : Ntop) (m : Map ℕ LldpSender) (s : Stream)
    → All DeviceBytes m
    → s.hex ≡ false
    → Prints (devices_text ntop m) s (dump_devices ntop m s)
unfolding dump_devices
dump_devices-Prints ntop [] s bytes decimal = Prints-nothing s
dump_devices-Prints ntop ((index, sender) ∷ m) s bytes decimal =
    let first = dump_device-Prints ntop sender.device_data s bytes.0 decimal in
    Prints-append first (
      dump_devices-Prints ntop m (dump_device ntop sender.device_data s) bytes.1
        (first.same_base ∙ decimal))

dump_port_map-Prints :
    (ntop : Ntop) (chassis : List ℕ) (ports : PortMap) (s : Stream)
    → All EntryBytes ports
    → s.hex ≡ false
    → Prints (ports_text ntop chassis ports) s (dump_port_map ntop chassis ports s)
unfolding dump_port_map
dump_port_map-Prints ntop chassis [] s bytes decimal = Prints-nothing s
dump_port_map-Prints ntop chassis ((port, e) ∷ ports) s bytes decimal =
    let first = dump_entry-Prints ntop chassis e s bytes.0 decimal in
    Prints-append first
      (dump_port_map-Prints ntop chassis ports _ bytes.1 (first.same_base ∙ decimal))

dump_chassis_map-Prints :
    (ntop : Ntop) (m : NeighbourList) (s : Stream)
    → All ChassisBytes m
    → s.hex ≡ false
    → Prints (chassis_text ntop m) s (dump_chassis_map ntop m s)
unfolding dump_chassis_map
dump_chassis_map-Prints ntop [] s bytes decimal = Prints-nothing s
dump_chassis_map-Prints ntop ((chassis, ports) ∷ m) s bytes decimal =
    let first = dump_port_map-Prints ntop chassis ports s bytes.0 decimal in
    Prints-append first (
      dump_chassis_map-Prints ntop m (dump_port_map ntop chassis ports s) bytes.1
        (first.same_base ∙ decimal))

-- The screen of DumpInfo.
abbrev pub info_text : Ntop → List ℕ → Map ℕ LldpSender → NeighbourList → List ℕ
info_text ntop machine_id senders m =
    ((((((clear_screen ++ codes "My Id: ") ++ machine_id) ++ device_heading)
          ++ devices_text ntop senders)
        ++ codes "\n\nFound ")
      ++ (number false (length m) ++ neighbour_heading))
    ++ chassis_text ntop m

-- On a stream in decimal DumpInfo clears the screen and writes the id of the machine, a line for each sender, the number of
-- chassis, and a line for each neighbour in the order of the list; indices, times to live and the number of
-- chassis are in decimal although the addresses before them are in hexadecimal, and the stream is in decimal
-- again.
pub dump_info-Prints :
    (ntop : Ntop) (machine_id : List ℕ) (senders : Map ℕ LldpSender) (m : NeighbourList)
    (s : Stream)
    → All DeviceBytes senders
    → All ChassisBytes m
    → s.hex ≡ false
    → Prints (info_text ntop machine_id senders m) s (dump_info ntop machine_id senders m s)
unfolding dump_info
dump_info-Prints ntop machine_id senders m s macs ports decimal =
    let head =
      put_text-Prints (((clear_screen ++ codes "My Id: ") ++ machine_id) ++ device_heading) s in
    let devices =
      Prints-append head (dump_devices-Prints ntop senders _ macs (head.same_base ∙ decimal)) in
    let found = Prints-append devices (put_text-Prints (codes "\n\nFound ") _) in
    let count = put_number-Prints (length m) _ (found.same_base ∙ decimal) in
    let title = Prints-append found (Prints-append count (put_text-Prints neighbour_heading _)) in
    Prints-append title (dump_chassis_map-Prints ntop m _ ports (title.same_base ∙ decimal))
