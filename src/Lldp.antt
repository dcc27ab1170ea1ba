-- ===== src/Lldp.antt =====
-- The constants of source/include/lldp.hh, and those of the Linux headers that the code names.
pub mod Log
use Prim.Native.Nat.{ℕ}

abbrev pub type_mask : ℕ
type_mask = 511

abbrev pub end_of_lldpdu : ℕ
end_of_lldpdu = 0

abbrev pub chassis_id_type : ℕ
chassis_id_type = 1

abbrev pub port_id_type : ℕ
port_id_type = 2

abbrev pub time_to_live_type : ℕ
time_to_live_type = 3

abbrev pub management_address_type : ℕ
management_address_type = 8

abbrev pub address_subtype_ipv4 : ℕ
address_subtype_ipv4 = 1

abbrev pub address_subtype_ipv6 : ℕ
address_subtype_ipv6 = 2

abbrev pub address_subtype_mac : ℕ
address_subtype_mac = 6

abbrev pub if_subtype_ifindex : ℕ
if_subtype_ifindex = 2

abbrev pub port_subtype_mac : ℕ
port_subtype_mac = 3

abbrev pub port_subtype_net : ℕ
port_subtype_net = 4

abbrev pub port_subtype_local : ℕ
port_subtype_local = 7

abbrev pub eth_alen : ℕ
eth_alen = 6

abbrev pub eth_p_lldp : ℕ
eth_p_lldp = 0x88cc

abbrev pub af_packet : ℕ
af_packet = 17

abbrev pub arphrd_ether : ℕ
arphrd_ether = 1
