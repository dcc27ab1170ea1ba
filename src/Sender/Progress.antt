-- ===== src/Sender/Progress.antt =====
-- The frames of a working sender, source/src/lldp_sender.cc, as the time passes.
use link_layer_discovery.Base.{
  ℕ, zero, suc, ◌+◌, ◌-◌, ◌≤◌, ◌<◌, ◌≡◌, ◌⊎◌, inl, inr, true, false, has_value, arith, length,
  Bool-cases, ltb, if◌then◌else◌,
}
use link_layer_discovery.Sender.{
  LldpSender, Host, State, int_max, send_lldp, try_transmit, trigger_transmission, timer_expired,
  count_credits, count_timer, tick,
}
use link_layer_discovery.Sender.Invariant.{
  IsBounded, sendings, tick-Call, timer_expired-Call, try_transmit-Call, count_credits_lem,
}

-- The interface is up, has a MAC address, and its index fits an `int`.
pub record IsWorking (s : LldpSender) : Type 0 where
  pub up : s.device_data.device_operational ≡ true
  pub addressed : has_value s.device_data.mac_address ≡ true
  pub indexed : s.device_data.if_index ≤ int_max

-- SendLldp hands a frame to the kernel wherever there is a MAC address and an index.
send_lldp_sends :
    (ttl : ℕ) (s : LldpSender) (h : Host)
    → has_value s.device_data.mac_address ≡ true
    → s.device_data.if_index ≤ int_max
    → sendings (send_lldp ttl (s, h)) ≡ suc (length h.log)
unfolding send_lldp
send_lldp_sends ttl s h a i = ground arith

timer_expired_sends :
    (s : LldpSender) (h : Host)
    → IsWorking s
    → 0 < s.transmit_credits
    → sendings (timer_expired (s, h)) ≡ suc (length h.log)
unfolding timer_expired trigger_transmission try_transmit
timer_expired_sends s h w c = ground (
  arith,
  send_lldp_sends 30
      (record s {
        transmit_timer = if ltb 0 (s.fast_forward_counter - 1) then 1 else 6;
        transmit_credits = s.transmit_credits - 1;
        fast_forward_counter = s.fast_forward_counter - 1;
        trigger_ready = false;
      })
      h,
)

pub ticks : ℕ → State → State
ticks zero st = st
ticks (suc n) st = ticks n (tick 1 st)

-- After one second there is a credit.
count_one :
    (s : LldpSender)
    → s.transmit_credits ≤ 5
    → (0 < (count_credits 1 s).transmit_credits)
      × ((count_credits 1 s).transmit_timer ≡ s.transmit_timer)
      × ((count_credits 1 s).device_data ≡ s.device_data)
unfolding count_credits
count_one s c = ground arith

-- A second on a sender whose timer is about to run out.
tick_expires :
    (s : LldpSender) (h : Host)
    → IsWorking s
    → IsBounded (s, h)
    → s.transmit_timer ≤ 1
    → length h.log < sendings (tick 1 (s, h))
unfolding tick count_timer
tick_expires s h w b t =
    let counted = count_credits 1 s in
    let one = count_one s b.credits in
    let zeroed : LldpSender = record counted { transmit_timer = 0 } in
    let first = timer_expired_sends zeroed h (ground (arith, one)) (ground (arith, one)) in
    let bounded = (count_credits_lem 1 s h b).bounded in
    let expired = timer_expired-Call (zeroed, h) (ground (arith, bounded)) in
    ground (arith, one, first, try_transmit-Call (timer_expired (zeroed, h)) expired.bounded)

-- The sender whose timer has more than a second left, a second later and before TryTransmit.
lowered : LldpSender → LldpSender
lowered s = record counted { transmit_timer = counted.transmit_timer - 1 }
  where
    counted : LldpSender
    counted = count_credits 1 s

tick-lowered :
    (s : LldpSender) (h : Host)
    → s.transmit_credits ≤ 5
    → s.device_data.device_operational ≡ true
    → 1 < s.transmit_timer
    → tick 1 (s, h) ≡ try_transmit (lowered s, h)
unfolding tick count_timer lowered
tick-lowered s h c up t = ground (arith, count_one s c)

lowered-IsWorking :
    (s : LldpSender)
    → s.transmit_credits ≤ 5
    → IsWorking s
    → 1 < s.transmit_timer
    → IsWorking (lowered s)
      × (0 < (lowered s).transmit_credits)
      × ((lowered s).transmit_timer + 1 ≡ s.transmit_timer)
unfolding lowered
lowered-IsWorking s c w t = ground (arith, count_one s c)

-- TryTransmit with a credit sends what is ready, and does nothing else.
try_transmit_cases :
    (s : LldpSender) (h : Host)
    → IsWorking s
    → 0 < s.transmit_credits
    → (length h.log < sendings (try_transmit (s, h))) ⊎ (try_transmit (s, h) ≡ (s, h))
unfolding try_transmit
try_transmit_cases s h w c = elim (Bool-cases s.trigger_ready) [
  | inl ready ↦ inl (
      ground (
        arith,
        send_lldp_sends 30
            (record s { trigger_ready = false; transmit_credits = s.transmit_credits - 1 }) h,
      ))
  | inr idle ↦ inr (ground arith)
]

-- A second on any other sender.
tick_waits :
    (s : LldpSender) (h : Host)
    → IsWorking s
    → IsBounded (s, h)
    → 1 < s.transmit_timer
    → (length h.log < sendings (tick 1 (s, h)))
      ⊎ (IsWorking (tick 1 (s, h)).0 × ((tick 1 (s, h)).0.transmit_timer + 1 ≡ s.transmit_timer))
tick_waits s h w b t =
    let same = tick-lowered s h b.credits w.up t in
    let (working, credit, falls) = lowered-IsWorking s b.credits w t in
    elim (try_transmit_cases (lowered s) h working credit) [
      | inl sends ↦ inl (rw same sends)
      | inr idle ↦ inr (rw (same, idle) (working, falls))
    ]

-- One second: either a frame is sent, or the timer falls and nothing else stands in the way.
tick_once :
    (s : LldpSender) (h : Host)
    → IsWorking s
    → IsBounded (s, h)
    → (length h.log < sendings (tick 1 (s, h)))
      ⊎ (IsWorking (tick 1 (s, h)).0
          × ((tick 1 (s, h)).0.transmit_timer + 1 ≡ s.transmit_timer)
          × (1 < s.transmit_timer))
tick_once s h w b = elim (Bool-cases (ltb 1 s.transmit_timer)) [
  | inr ends ↦ inl (tick_expires s h w b (ground arith))
  | inl waits ↦ elim (tick_waits s h w b (ground arith)) [
    | inl sent ↦ inl sent
    | inr (working, falls) ↦ inr (working, falls, ground arith)
  ]
]

ticks-sendings : (n : ℕ) (st : State) → IsBounded st → sendings st ≤ sendings (ticks n st)
unfolding ticks
ticks-sendings zero st b = omega arith
ticks-sendings (suc n) st b =
    let call = tick-Call 1 st b in omega (arith, call, ticks-sendings n (tick 1 st) call.bounded)

-- A working sender hands a frame to the kernel by the time its timer runs out: of `n + 1` ticks of
-- one second, with at most that much on the timer, one sends at least. The timer is at most 6.
pub ticks_send :
    (n : ℕ) (s : LldpSender) (h : Host)
    → IsWorking s
    → IsBounded (s, h)
    → s.transmit_timer ≤ suc n
    → length h.log < sendings (ticks (suc n) (s, h))
unfolding ticks
ticks_send zero s h w b t = tick_expires s h w b t
ticks_send (suc n) s h w b t =
    let call = tick-Call 1 (s, h) b in
    let (s', h') = tick 1 (s, h) in
    elim (tick_once s h w b) [
      | inl sent ↦ omega (arith, sent, ticks-sendings (suc n) (s', h') call.bounded)
      | inr (working, falls, more) ↦
          omega (arith, call, falls, ticks_send n s' h' working call.bounded (omega arith))
    ]
