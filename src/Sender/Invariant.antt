-- ===== src/Sender/Invariant.antt =====
-- The bounds of the counters of source/src/lldp_sender.cc, and what one call of a method does to the credits and the log.
use link_layer_discovery.Base.{
  ℕ, ◌+◌, ◌-◌, ◌≤◌, ◌≡◌, arith, length, Bool, true, false, ltb, ◌==◌, if◌then◌else◌, Bool-cases,
  inl, inr,
}
use link_layer_discovery.Device.{DeviceData}
use link_layer_discovery.Sender.{
  LldpSender, Host, State, max_transmit_credits, fast_transmit_amount, message_transmit_interval,
  send_lldp, end_transmission, try_transmit, trigger_transmission, timer_expired, new_neighbour,
  fresh, create, count_credits, count_timer, tick,
}
use link_layer_discovery.Sender.Update.{copy_addresses, switch, take_over, update}

pub record IsBounded (st : State) : Type 0 where
  pub credits : st.0.transmit_credits ≤ max_transmit_credits
  pub fast : st.0.fast_forward_counter ≤ fast_transmit_amount
  pub timer : st.0.transmit_timer ≤ message_transmit_interval

-- How many frames were handed to the kernel.
abbrev pub sendings : State → ℕ
sendings st = length st.1.log

-- One call: it keeps the bounds, no frame is taken back, and each frame is paid for by a credit or
-- by what the call brings.
pub record Call (gain : ℕ) (st st' : State) : Type 0 where
  pub bounded : IsBounded st'
  pub grows : sendings st ≤ sendings st'
  pub paid : st'.0.transmit_credits + sendings st' ≤ st.0.transmit_credits + sendings st + gain

-- SendLldp hands over one frame at most, and leaves the counters alone.
pub record Sends (st st' : State) : Type 0 where
  pub timer : st'.0.transmit_timer ≡ st.0.transmit_timer
  pub credits : st'.0.transmit_credits ≡ st.0.transmit_credits
  pub fast : st'.0.fast_forward_counter ≡ st.0.fast_forward_counter
  pub trigger : st'.0.trigger_ready ≡ st.0.trigger_ready
  pub grows : sendings st ≤ sendings st'
  pub one : sendings st' ≤ sendings st + 1

pub send_lldp-Sends : (ttl : ℕ) (st : State) → Sends st (send_lldp ttl st)
unfolding send_lldp
send_lldp-Sends ttl st = ground arith

pub end_transmission-Call : (st : State) → IsBounded st → Call 1 st (end_transmission st)
unfolding end_transmission
end_transmission-Call st b = ground (arith, send_lldp-Sends 0 st)

pub try_transmit-Call : (st : State) → IsBounded st → Call 0 st (try_transmit st)
unfolding try_transmit
try_transmit-Call (s, h) b = ground (
  arith,
  send_lldp-Sends 30
      (record s { trigger_ready = false; transmit_credits = s.transmit_credits - 1 }, h),
)

pub trigger_transmission-Call : (st : State) → IsBounded st → Call 0 st (trigger_transmission st)
unfolding trigger_transmission
trigger_transmission-Call (s, h) b = ground (
  arith,
  try_transmit-Call (
    record s {
      transmit_timer = if ltb 0 s.fast_forward_counter then 1 else 6;
      trigger_ready = true;
    },
    h,
  ),
)

pub timer_expired-Call : (st : State) → IsBounded st → Call 0 st (timer_expired st)
unfolding timer_expired
timer_expired-Call (s, h) b = ground (
  arith,
  trigger_transmission-Call (record s { fast_forward_counter = s.fast_forward_counter - 1 }, h),
)

pub new_neighbour-Call : (st : State) → IsBounded st → Call 0 st (new_neighbour st)
unfolding new_neighbour
new_neighbour-Call (s, h) b = ground (
  arith,
  timer_expired-Call (
    record s {
      fast_forward_counter = if s.fast_forward_counter == 0 then 4 else s.fast_forward_counter;
    },
    h,
  ),
)

-- The constructor starts within the bounds, whatever the device.
pub create-IsBounded : (d : DeviceData) (h : Host) → IsBounded (create d h)
unfolding create
create-IsBounded d h = ground (arith, new_neighbour-Call (fresh d, h) (omega arith))

pub count_credits_lem :
    (delta : ℕ) (s : LldpSender) (h : Host)
    → IsBounded (s, h)
    → Call delta (s, h) (count_credits delta s, h)
unfolding count_credits
count_credits_lem delta s h b = ground arith

pub count_timer_lem : (delta : ℕ) (st : State) → IsBounded st → Call 0 st (count_timer delta st)
unfolding count_timer
count_timer_lem delta (s, h) b =
    ground (arith, timer_expired-Call (record s { transmit_timer = 0 }, h))

Call-trans : {m n : ℕ} {a b c : State} → Call m a b → Call n b c → Call (m + n) a c
Call-trans p q = omega arith

-- A tick of `delta` seconds pays for `delta` frames at most.
pub tick-Call : (delta : ℕ) (st : State) → IsBounded st → Call delta st (tick delta st)
unfolding tick
tick-Call delta (s, h) b = elim (Bool-cases s.device_data.device_operational) [
  | inr down ↦ rw (down, tick) (ground arith)
  | inl up ↦
      let first = count_credits_lem delta s h b in
      let second = count_timer_lem delta (count_credits delta s, h) first.bounded in
      let third = try_transmit-Call (count_timer delta (count_credits delta s, h)) second.bounded in
      rw (up, tick) (ground (arith, first, second, third))
]

switch_lem : (up : Bool) (st : State) → IsBounded st → Call 0 st (switch up st)
unfolding switch
switch_lem true st b = ground arith
switch_lem false st b = ground (arith, new_neighbour-Call st b)

copy_addresses_lem :
    (d : DeviceData) (s : LldpSender) (h : Host)
    → IsBounded (s, h)
    → Call 0 (s, h) (copy_addresses d s, h)
unfolding copy_addresses
copy_addresses_lem d s h b = ground arith

take_over_lem : (d : DeviceData) (st : State) → IsBounded st → Call 0 st (take_over d st)
unfolding take_over
take_over_lem d (s, h) b =
    let copied = copy_addresses_lem d s h b in
    ground (arith, copied, switch_lem d.device_operational (copy_addresses d s, h))

-- An update pays for no frame: whatever it sends takes a credit.
pub update-Call : (d : DeviceData) (st : State) → IsBounded st → Call 0 st (update d st)
unfolding update
update-Call d (s, h) b =
    let taken = take_over_lem d (s, h) b in
    ground (arith, taken, trigger_transmission-Call (take_over d (s, h)))

-- The constructor has no credit yet, so it sends nothing.
pub create-sendings :
    (d : DeviceData) (h : Host)
    → (create d h).0.transmit_credits + sendings (create d h) ≤ length h.log
unfolding create
create-sendings d h = ground (arith, new_neighbour-Call (fresh d, h) (omega arith))
