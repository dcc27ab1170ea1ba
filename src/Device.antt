-- ===== src/Device.antt =====
-- netlink::DeviceData of source/include/netlink_monitor.hh: what is known of a local interface.
use link_layer_discovery.Base.{ℕ, Bool, List, Option}

pub record DeviceData : Type 0 where
  pub mac_address : Option (List ℕ)
  pub ipv4_address : Option (List ℕ)
  pub ipv6_address : Option (List ℕ)
  pub interface_name : Option (List ℕ)
  pub device_operational : Bool
  pub if_index : ℕ  -- unsigned int
