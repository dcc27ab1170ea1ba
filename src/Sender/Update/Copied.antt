-- ===== src/Sender/Update/Copied.antt =====
-- What LldpSender::Update of source/src/lldp_sender.cc leaves in the sender.
use link_layer_discovery.Base.{
  ℕ, ◌-◌, ◌≡◌, ◌∙◌, refl, Bool, true, false, List, Option, none, some, arith, ◌==◌, ltb,
  if◌then◌else◌, Bool-cases, inl, inr,
}
use link_layer_discovery.Base.Key.{bytes_beq_iff}
use link_layer_discovery.Device.{DeviceData}
use link_layer_discovery.Sender.{
  LldpSender, Host, State, create, fresh, send_lldp, try_transmit, trigger_transmission,
  timer_expired, new_neighbour,
}
use link_layer_discovery.Sender.Update.{
  refreshed, copy_addresses, switch, changed, take_over, update,
}

-- The addresses and the name are those of `d`.
pub record HasAddresses (s : LldpSender) (d : DeviceData) : Type 0 where
  pub name : s.device_data.interface_name ≡ d.interface_name
  pub ipv4 : s.device_data.ipv4_address ≡ d.ipv4_address
  pub ipv6 : s.device_data.ipv6_address ≡ d.ipv6_address

-- What no update touches: the MAC address and the index.
pub record HasIdentity (s : LldpSender) (d : DeviceData) : Type 0 where
  pub mac : s.device_data.mac_address ≡ d.mac_address
  pub index : s.device_data.if_index ≡ d.if_index

pub HasAddresses-trans :
    {s t : LldpSender} {d : DeviceData}
    → HasAddresses t s.device_data
    → HasAddresses s d
    → HasAddresses t d
HasAddresses-trans k a = record {
  name = k.name ∙ a.name;
  ipv4 = k.ipv4 ∙ a.ipv4;
  ipv6 = k.ipv6 ∙ a.ipv6;
}

pub HasIdentity-trans :
    {s t : LldpSender} {d : DeviceData}
    → HasIdentity t s.device_data
    → HasIdentity s d
    → HasIdentity t d
HasIdentity-trans k a = record { mac = k.mac ∙ a.mac; index = k.index ∙ a.index }

-- A call that may only change whether the device is operational.
pub record KeepsDevice (st st' : State) : Type 0 where
  pub addresses : HasAddresses st'.0 st.0.device_data
  pub identity : HasIdentity st'.0 st.0.device_data

send_lldp-KeepsDevice : (ttl : ℕ) (st : State) → KeepsDevice st (send_lldp ttl st)
unfolding send_lldp
send_lldp-KeepsDevice ttl st = ground arith

try_transmit-KeepsDevice : (st : State) → KeepsDevice st (try_transmit st)
unfolding try_transmit
try_transmit-KeepsDevice (s, h) = ground (
  arith,
  send_lldp-KeepsDevice 30
      (record s { trigger_ready = false; transmit_credits = s.transmit_credits - 1 }, h),
)

pub trigger_transmission-KeepsDevice : (st : State) → KeepsDevice st (trigger_transmission st)
unfolding trigger_transmission
trigger_transmission-KeepsDevice (s, h) = ground (
  arith,
  try_transmit-KeepsDevice (
    record s {
      transmit_timer = if ltb 0 s.fast_forward_counter then 1 else 6;
      trigger_ready = true;
    },
    h,
  ),
)

pub new_neighbour-KeepsDevice : (st : State) → KeepsDevice st (new_neighbour st)
unfolding new_neighbour timer_expired
new_neighbour-KeepsDevice (s, h) = ground (
  arith,
  trigger_transmission-KeepsDevice (
    record s {
      fast_forward_counter =
          (if s.fast_forward_counter == 0 then 4 else s.fast_forward_counter) - 1;
    },
    h,
  ),
)

pub create-KeepsDevice :
    (d : DeviceData) (h : Host) → HasAddresses (create d h).0 d × HasIdentity (create d h).0 d
unfolding create
create-KeepsDevice d h = ground (arith, new_neighbour-KeepsDevice (fresh d, h))

refreshed_lem : (old new : Option (List ℕ)) → refreshed old new ≡ new
unfolding refreshed
refreshed_lem none none = refl
refreshed_lem none (some b) = refl
refreshed_lem (some a) none = refl
refreshed_lem (some a) (some b) = ground (arith, bytes_beq_iff a b)

switch_lem :
    (up : Bool) (st : State)
    → HasAddresses (switch up st).0 st.0.device_data
      × HasIdentity (switch up st).0 st.0.device_data
      × ((switch up st).0.device_data.device_operational ≡ up)
unfolding switch
switch_lem true st = ground arith
switch_lem false st = ground (arith, new_neighbour-KeepsDevice st)

copy_addresses_lem :
    (d : DeviceData) (s : LldpSender)
    → HasAddresses (copy_addresses d s) d × HasIdentity (copy_addresses d s) s.device_data
unfolding copy_addresses
copy_addresses_lem d s =
    let old = s.device_data in
    ground (
      arith,
      refreshed_lem old.interface_name d.interface_name,
      refreshed_lem old.ipv4_address d.ipv4_address,
      refreshed_lem old.ipv6_address d.ipv6_address,
    )

take_over_lem :
    (d : DeviceData) (st : State)
    → HasAddresses (take_over d st).0 d × HasIdentity (take_over d st).0 st.0.device_data
unfolding take_over
take_over_lem d (s, h) =
    ground (arith, copy_addresses_lem d s, switch_lem d.device_operational (copy_addresses d s, h))

-- After an update the sender has the new name and addresses, and still its old MAC address and
-- index, whatever the update says of those.
pub update-HasAddresses :
    (d : DeviceData) (st : State)
    → HasAddresses (update d st).0 d × HasIdentity (update d st).0 st.0.device_data
unfolding update
update-HasAddresses d (s, h) =
    let taken = take_over_lem d (s, h) in
    let keeps = trigger_transmission-KeepsDevice (take_over d (s, h)) in
    elim (Bool-cases (changed s.device_data d)) [
      | inr same ↦ simp (same) taken
      | inl differs ↦
          simp (differs)
            (HasAddresses-trans keeps.addresses taken.0, HasIdentity-trans keeps.identity taken.1)
    ]
