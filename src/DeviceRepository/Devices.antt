-- ===== src/DeviceRepository/Devices.antt =====
-- What the link and the address packets do to the map of the devices, source/src/device_repository.cc.
use link_layer_discovery.Base.{
  ℕ, true, false, List, [], ◌∷◌, some, ◌==◌, if◌then◌else◌, ◌≡◌, refl, arith, has_value,
}
use link_layer_discovery.Base.Key.{nat_key}
use link_layer_discovery.Base.Map.{Map, lookup, lookup-insert, IsAscending, insert-IsAscending}
use link_layer_discovery.Device.{DeviceData}
use link_layer_discovery.Netlink.{TlvView, LinkView, AddrView}
use link_layer_discovery.DeviceRepository.{
  device_at, change_device, link_attribute, link_attributes, link_device, handle_link_packet,
  address_attribute, address_attributes, address_device, handle_address_packet,
}

-- The keys ascend, and each device stands under its own index.
pub record IsIndexed (m : Map ℕ DeviceData) : Type 0 where
  pub ascending : IsAscending m
  pub own_index : (q : ℕ) (d : DeviceData) → lookup q m ≡ some d → d.if_index ≡ q

-- A packet drops no device, and changes only that of its own index.
pub record Changes (index : ℕ) (m m' : Map ℕ DeviceData) : Type 0 where
  pub others : (q : ℕ) → (q == index) ≡ false → lookup q m' ≡ lookup q m
  pub kept : (q : ℕ) → has_value (lookup q m) ≡ true → has_value (lookup q m') ≡ true

-- A packet that only says which device it is about, and whether it is up, keeps the rest.
link_attribute_keeps :
    (a : TlvView) (d : DeviceData)
    → ((link_attribute a d).if_index ≡ d.if_index)
      × ((link_attribute a d).device_operational ≡ d.device_operational)
      × ((link_attribute a d).ipv4_address ≡ d.ipv4_address)
      × ((link_attribute a d).ipv6_address ≡ d.ipv6_address)
unfolding link_attribute
link_attribute_keeps a d = ground arith

link_attributes_keeps :
    (l : List TlvView) (d : DeviceData)
    → ((link_attributes l d).if_index ≡ d.if_index)
      × ((link_attributes l d).device_operational ≡ d.device_operational)
      × ((link_attributes l d).ipv4_address ≡ d.ipv4_address)
      × ((link_attributes l d).ipv6_address ≡ d.ipv6_address)
unfolding link_attributes
link_attributes_keeps [] d = (refl, refl, refl, refl)
link_attributes_keeps (a ∷ l) d =
    ground (arith, link_attribute_keeps a d, link_attributes_keeps l (link_attribute a d))

address_attribute_keeps :
    (family : ℕ) (a : TlvView) (d : DeviceData)
    → ((address_attribute family a d).if_index ≡ d.if_index)
      × ((address_attribute family a d).device_operational ≡ d.device_operational)
      × ((address_attribute family a d).mac_address ≡ d.mac_address)
      × ((address_attribute family a d).interface_name ≡ d.interface_name)
unfolding address_attribute
address_attribute_keeps family a d = ground arith

address_attributes_keeps :
    (family : ℕ) (l : List TlvView) (d : DeviceData)
    → ((address_attributes family l d).if_index ≡ d.if_index)
      × ((address_attributes family l d).device_operational ≡ d.device_operational)
      × ((address_attributes family l d).mac_address ≡ d.mac_address)
      × ((address_attributes family l d).interface_name ≡ d.interface_name)
unfolding address_attributes
address_attributes_keeps family [] d = (refl, refl, refl, refl)
address_attributes_keeps family (a ∷ l) d = ground (
  arith,
  address_attribute_keeps family a d,
  address_attributes_keeps family l (address_attribute family a d),
)

link_device_index : (v : LinkView) (d : DeviceData) → (link_device v d).if_index ≡ v.ifi_index
unfolding link_device
link_device_index v d = (link_attributes_keeps v.attributes _).0

address_device_index : (v : AddrView) (d : DeviceData) → (address_device v d).if_index ≡ v.ifa_index
unfolding address_device
address_device_index v d =
    (address_attributes_keeps v.ifa_family v.attributes (record d { if_index = v.ifa_index })).0

change_device_lem :
    (index q : ℕ) (f : DeviceData → DeviceData) (m : Map ℕ DeviceData)
    → lookup q (change_device index f m)
      ≡ (if q == index then some (f (device_at index m)) else lookup q m)
unfolding change_device
change_device_lem index q f m = lookup-insert index q (f (device_at index m)) m

change_device-IsIndexed :
    (index : ℕ) (f : DeviceData → DeviceData) (m : Map ℕ DeviceData)
    → ((d : DeviceData) → (f d).if_index ≡ index)
    → IsIndexed m
    → IsIndexed (change_device index f m)
unfolding change_device
change_device-IsIndexed index f m own v = record {
  ascending = insert-IsAscending index (f (device_at index m)) m v.ascending;
  own_index = λ q d found.
      ground
        (arith, found, change_device_lem index q f m, own (device_at index m), v.own_index q d);
}

change_device-Changes :
    (index : ℕ) (f : DeviceData → DeviceData) (m : Map ℕ DeviceData)
    → Changes index m (change_device index f m)
change_device-Changes index f m = record {
  others = λ q other. ground (arith, change_device_lem index q f m);
  kept = λ q there. ground (arith, change_device_lem index q f m);
}

-- Where the devices stand in order, each under its own index, a link packet keeps that, drops no
-- device, and changes only the one that it names.
pub handle_link_packet-Changes :
    (v : LinkView) (m : Map ℕ DeviceData)
    → IsIndexed m
    → Changes v.ifi_index m (handle_link_packet v m) × IsIndexed (handle_link_packet v m)
unfolding handle_link_packet
handle_link_packet-Changes v m w = ground (
  arith,
  change_device-Changes v.ifi_index (link_device v) m,
  change_device-IsIndexed v.ifi_index (link_device v) m (link_device_index v) w,
)

-- Where the devices stand in order, each under its own index, an address packet keeps that, drops no
-- device, and changes only the one that it names.
pub handle_address_packet-Changes :
    (v : AddrView) (m : Map ℕ DeviceData)
    → IsIndexed m
    → Changes v.ifa_index m (handle_address_packet v m) × IsIndexed (handle_address_packet v m)
unfolding handle_address_packet
handle_address_packet-Changes v m w = ground (
  arith,
  change_device-Changes v.ifa_index (address_device v) m,
  change_device-IsIndexed v.ifa_index (address_device v) m (address_device_index v) w,
)
