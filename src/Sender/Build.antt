-- ===== src/Sender/Build.antt =====
-- How source/src/lldp_sender.cc builds a frame. A span in the frame is the list of the bytes that sendFrame reads
-- through it.
use link_layer_discovery.Base.{
  ℕ, ◌+◌, List, [], ◌∷◌, ◌++◌, Option, none, some, has_value, is_empty, ◌&&◌, not, if◌then◌else◌,
}
use link_layer_discovery.Base.Words.{htons, htonl}
use link_layer_discovery.Lldp.{
  chassis_id_type, port_id_type, time_to_live_type, management_address_type, address_subtype_ipv4,
  address_subtype_ipv6, address_subtype_mac, if_subtype_ifindex, port_subtype_mac,
  port_subtype_local, eth_p_lldp,
}
use link_layer_discovery.Device.{DeviceData}
use link_layer_discovery.Packet.Tlv.{Tlv}
use link_layer_discovery.Packet.Frame.{EthernetFrame}

-- tlvValueManagementAddressTemplate, with the address and the interface index copied in: the length
-- of the subtype and the address, the subtype, the address, the subtype of the interface number,
-- the index in network byte order, and the length 0 of an object identifier.
unfoldable pub management_value : ℕ → ℕ → List ℕ → ℕ → List ℕ
management_value size subtype address if_index =
    (1 + size) ∷ subtype ∷ (address ++ (if_subtype_ifindex ∷ (htonl if_index ++ (0 ∷ []))))

abbrev pub management_tlv : ℕ → ℕ → ℕ → List ℕ → Tlv
management_tlv size subtype if_index address = record {
  type = management_address_type;
  value = management_value size subtype address if_index;
}

-- One of the three blocks of createLldpduOptionalTlvs, on `value` of an optional.
unfoldable pub optional_address : ℕ → ℕ → ℕ → Option (List ℕ) → List Tlv
optional_address size subtype if_index none = []
optional_address size subtype if_index (some a) = management_tlv size subtype if_index a ∷ []

-- createLldpduOptionalTlvs on the fields that it reads: the MAC address is sent only where there is
-- no other.
unfoldable pub address_tlvs : ℕ → Option (List ℕ) → Option (List ℕ) → Option (List ℕ) → List Tlv
unfolding optional_address
address_tlvs if_index ipv4 ipv6 mac =
    optional_address 4 address_subtype_ipv4 if_index ipv4
    ++ (optional_address 16 address_subtype_ipv6 if_index ipv6
        ++ (if not (has_value ipv4) && not (has_value ipv6)
            then optional_address 6 address_subtype_mac if_index mac
            else []))

unfoldable pub lldpdu_optional_tlvs : DeviceData → List Tlv
lldpdu_optional_tlvs d = address_tlvs d.if_index d.ipv4_address d.ipv6_address d.mac_address

abbrev pub multicast_address : List ℕ
multicast_address = 0x01 ∷ 0x80 ∷ 0xc2 ∷ 0x00 ∷ 0x00 ∷ 0x00 ∷ []

-- getMachineIdTlvValue, on its static vector and on what getMachineId returns: the vector afterwards. It is made once.
unfoldable pub machine_id_tlv_value : List ℕ → List ℕ → List ℕ
machine_id_tlv_value vector machine_id =
    if is_empty vector then port_subtype_local ∷ machine_id else vector

-- constructFrame for a device with the MAC address `mac`; `vector` is what getMachineIdTlvValue returns. The arrays
-- `mac_address` and `ttl_network_bo` are local, and the frame keeps spans of them: what sendFrame reads through a
-- span of a local array, once this function has returned, is `gone` of the bytes that the array held.
unfoldable pub construct_frame :
    (List ℕ → List ℕ) → List ℕ → ℕ → DeviceData → List ℕ → EthernetFrame
construct_frame gone vector ttl d mac = record {
  header = record { ether_dhost = multicast_address; ether_shost = mac; ether_type = eth_p_lldp };
  data_unit = record {
    chassis_id = record { type = chassis_id_type; value = vector };
    port_id = record { type = port_id_type; value = gone (port_subtype_mac ∷ mac) };
    time_to_live = record { type = time_to_live_type; value = gone (htons ttl) };
    optional_tlv = lldpdu_optional_tlvs d;
  };
}
