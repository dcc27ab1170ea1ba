-- ===== src/Client/Table.antt =====
-- What the client prints: logPortType and dumpNeighbourData of source/src/client_main.cc.
pub mod Text
pub mod Shown
use link_layer_discovery.Base.{ℕ, List, [], ◌∷◌, Option, none, some, ◌==◌, if◌then◌else◌, ◌>>=◌}
use link_layer_discovery.Base.Map.{Map}
use link_layer_discovery.Base.Stream.{Stream, codes, put_text, put_number}
use link_layer_discovery.Lldp.{
  port_subtype_mac, port_subtype_net, port_subtype_local, address_subtype_mac, address_subtype_ipv4,
  address_subtype_ipv6,
}
use link_layer_discovery.Lldp.Log.{Ntop, log_port, log_ipv4, log_ipv6}
use link_layer_discovery.Client.Receive.{NeighbourDeviceData, Reading, get_data}

-- What stands in the parentheses of "NET".
unfoldable pub log_family : List ℕ → Stream → Stream
log_family [] s = put_text (codes "INVALID") s
log_family (family ∷ address) s =
    if family == address_subtype_mac
    then put_text (codes "MAC") s
    else if family == address_subtype_ipv4
    then put_text (codes "IPv4") s
    else if family == address_subtype_ipv6
    then put_text (codes "IPv6") s
    else put_text (codes ")") (put_number 0 family (put_text (codes "UNKNOWN(") s))

-- logPortType
unfoldable pub log_port_type : List ℕ → Stream → Stream
log_port_type [] s = put_text (codes "Missing...") s
log_port_type (subtype ∷ value) s =
    if subtype == port_subtype_mac
    then put_text (codes "MAC") s
    else if subtype == port_subtype_local
    then put_text (codes "LOCAL") s
    else if subtype == port_subtype_net
    then put_text (codes ")") (log_family value (put_text (codes "NET(") s))
    else put_text (codes "UNKNOWN") s

-- `value_or("Missing")`
abbrev pub name_or_missing : Option (List ℕ) → List ℕ
name_or_missing none = codes "Missing"
name_or_missing (some name) = name

abbrev pub tab : Stream → Stream
tab s = put_text (codes "\t") s

-- The body of the loop of dumpNeighbourData.
unfoldable pub print_row : Ntop → NeighbourDeviceData → Stream → Stream
print_row ntop d s =
    let named =
      tab (put_text (name_or_missing d.local_interface_name) (tab (put_text d.chassis s))) in
    let port = tab (log_port ntop d.port (tab (log_port_type d.port named))) in
    put_text (codes "\n") (log_ipv6 ntop d.ipv6_address (tab (log_ipv4 ntop d.ipv4_address port)))

unfoldable pub print_rows : Ntop → Map ℕ NeighbourDeviceData → Stream → Stream
print_rows ntop [] s = s
print_rows ntop ((key, value) ∷ map) s = print_rows ntop map (print_row ntop value s)

abbrev pub heading : List ℕ
heading = codes "Chassis\tLocal interface\tPort type\tPort\tIp\tIpv6\n"

-- dumpNeighbourData, after GetData.
unfoldable pub print_table : Ntop → Map ℕ NeighbourDeviceData → Stream → Stream
print_table ntop map s = put_text (codes "\n") (print_rows ntop map (put_text heading s))

-- dumpNeighbourData, with what the calls of `recvmsg` give. A result `none` is that of GetData.
unfoldable pub dump_neighbour_data : Ntop → List Reading → Stream → Option Stream
dump_neighbour_data ntop readings s = do map ← get_data readings; some (print_table ntop map s)
