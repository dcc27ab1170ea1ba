-- ===== src/Sender/Update/Switch.antt =====
-- What LldpSender::Update of source/src/lldp_sender.cc does to the pace of the transmission.
use link_layer_discovery.Base.{ℕ, ◌-◌, ◌≡◌, refl, true, false, arith, ◌==◌, ltb, if◌then◌else◌}
use link_layer_discovery.Device.{DeviceData}
use link_layer_discovery.Sender.{
  LldpSender, Host, State, try_transmit, trigger_transmission, timer_expired, new_neighbour,
}
use link_layer_discovery.Sender.Invariant.{send_lldp-Sends}
use link_layer_discovery.Sender.Update.{copy_addresses, switch, take_over, update}

abbrev counter : State → ℕ
counter st = st.0.fast_forward_counter

try_transmit-counter : (st : State) → counter (try_transmit st) ≡ counter st
unfolding try_transmit
try_transmit-counter (s, h) = ground (
  arith,
  send_lldp-Sends 30
      (record s { trigger_ready = false; transmit_credits = s.transmit_credits - 1 }, h),
)

trigger_transmission-counter : (st : State) → counter (trigger_transmission st) ≡ counter st
unfolding trigger_transmission
trigger_transmission-counter (s, h) = try_transmit-counter (
  record s { transmit_timer = if ltb 0 s.fast_forward_counter then 1 else 6; trigger_ready = true },
  h,
)

new_neighbour-counter :
    (st : State) → counter (new_neighbour st) ≡ (if counter st == 0 then 4 else counter st) - 1
unfolding new_neighbour timer_expired
new_neighbour-counter (s, h) = trigger_transmission-counter (
  record s {
    fast_forward_counter = (if s.fast_forward_counter == 0 then 4 else s.fast_forward_counter) - 1;
  },
  h,
)

update-counter : (d : DeviceData) (st : State) → counter (update d st) ≡ counter (take_over d st)
unfolding update
update-counter d (s, h) = ground (arith, trigger_transmission-counter (take_over d (s, h)))

copy_addresses-counter :
    (d : DeviceData) (s : LldpSender)
    → (copy_addresses d s).fast_forward_counter ≡ s.fast_forward_counter
unfolding copy_addresses
copy_addresses-counter d s = refl

-- The update of a sender whose interface was down and comes up does not start fast transmission: the
-- counter stays what it was.
pub update_up :
    (d : DeviceData) (s : LldpSender) (h : Host)
    → s.device_data.device_operational ≡ false
    → d.device_operational ≡ true
    → (update d (s, h)).0.fast_forward_counter ≡ s.fast_forward_counter
unfolding take_over switch copy_addresses
update_up d s h down up = ground (arith, update-counter d (s, h))

-- The update of a sender whose interface was up and goes down starts fast transmission: the counter
-- starts at 4, where it was 0, and has counted one round.
pub update_down :
    (d : DeviceData) (s : LldpSender) (h : Host)
    → s.device_data.device_operational ≡ true
    → d.device_operational ≡ false
    → (update d (s, h)).0.fast_forward_counter
      ≡ (if s.fast_forward_counter == 0 then 4 else s.fast_forward_counter) - 1
unfolding take_over switch
update_down d s h up down = ground (
  arith,
  update-counter d (s, h),
  new_neighbour-counter (copy_addresses d s, h),
  copy_addresses-counter d s,
)
