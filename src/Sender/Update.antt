-- ===== src/Sender/Update.antt =====
-- LldpSender::Update, source/src/lldp_sender.cc: the device data has changed.
pub mod Copied
pub mod Switch
use link_layer_discovery.Base.{
  ℕ, Bool, true, false, List, Option, none, some, ◌||◌, not, if◌then◌else◌,
}
use link_layer_discovery.Base.Key.{bytes_beq}
use link_layer_discovery.Device.{DeviceData}
use link_layer_discovery.Sender.{
  LldpSender, State, disable_sender, enable_sender, local_change_detected,
}

-- `==` of two optional byte arrays.
abbrev pub same_bytes : Option (List ℕ) → Option (List ℕ) → Bool
same_bytes none none = true
same_bytes none (some b) = false
same_bytes (some a) none = false
same_bytes (some a) (some b) = bytes_beq a b

abbrev pub same_bool : Bool → Bool → Bool
same_bool true b = b
same_bool false b = not b

-- The branch of Update where `device_operational` differs.
unfoldable pub switch : Bool → State → State
unfolding disable_sender
switch operational st =
    let (s, h) = if operational then disable_sender st else enable_sender st in
    (record s { device_data = record (s.device_data) { device_operational = operational } }, h)

-- A field that differs is copied.
unfoldable pub refreshed : Option (List ℕ) → Option (List ℕ) → Option (List ℕ)
refreshed old new = if same_bytes old new then old else new

-- The first three `if`s of Update.
unfoldable pub copy_addresses : DeviceData → LldpSender → LldpSender
unfolding refreshed
copy_addresses d s = record s {
  device_data = record old {
    interface_name = refreshed old.interface_name d.interface_name;
    ipv4_address = refreshed old.ipv4_address d.ipv4_address;
    ipv6_address = refreshed old.ipv6_address d.ipv6_address;
  };
}
  where
    old : DeviceData
    old = s.device_data

-- `any_changed`
unfoldable pub changed : DeviceData → DeviceData → Bool
changed old new =
    not (same_bytes old.interface_name new.interface_name)
    || (not (same_bytes old.ipv4_address new.ipv4_address)
        || (not (same_bytes old.ipv6_address new.ipv6_address)
            || not (same_bool old.device_operational new.device_operational)))

-- The four `if`s on the fields.
unfoldable pub take_over : DeviceData → State → State
take_over d (s, h) =
    if same_bool s.device_data.device_operational d.device_operational
    then (copy_addresses d s, h)
    else switch d.device_operational (copy_addresses d s, h)

-- Update
unfoldable pub update : DeviceData → State → State
update d (s, h) =
    if changed s.device_data d
    then local_change_detected (take_over d (s, h))
    else take_over d (s, h)
