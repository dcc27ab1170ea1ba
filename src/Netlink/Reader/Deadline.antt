-- ===== src/Netlink/Reader/Deadline.antt =====
-- The time that a reader waits for a dump, source/src/device_reader.cc and source/src/ip_reader.cc.
use link_layer_discovery.Base.{ℕ, zero, suc, ◌-◌, ◌≤◌, ◌<◌, Option, none, some, ◌≡◌, arith}
use link_layer_discovery.Base.Ints.{ℤ, pos, negsuc}
use link_layer_discovery.Netlink.{Answer, NetlinkSocket, Kernel}
use link_layer_discovery.Netlink.Reader.{Reader, tick, trigger_dump}

-- While a dump is awaited there are one to five seconds left.
abbrev pub HasTime : Option ℕ → ℤ → Type 0
HasTime none t = Unit {0}
HasTime (some seq) (pos t) = (0 < t) × (t ≤ 5)
HasTime (some seq) (negsuc n) = ⊥

abbrev pub IsTimed : Reader → Type 0
IsTimed r = HasTime r.dump_request_sequence_number r.dump_read_timeout

-- The ticks of `n` seconds, without an answer.
pub wait : ℕ → Reader → Reader
wait zero r = r
wait (suc n) r = wait n (tick 1 r).0

-- The time that is left, if a dump is awaited.
abbrev pub left : Option ℕ → ℤ → ℕ
left none t = 0
left (some seq) (pos t) = t
left (some seq) (negsuc n) = 0

abbrev pub time_left : Reader → ℕ
time_left r = left r.dump_request_sequence_number r.dump_read_timeout

tick-IsTimed :
    (r : Reader) → IsTimed r → IsTimed (tick 1 r).0 × (time_left (tick 1 r).0 ≤ time_left r - 1)
unfolding tick
tick-IsTimed r h = ground arith

-- A request leaves the time in its bounds.
pub trigger_dump-IsTimed :
    (send : NetlinkSocket → Kernel → Answer) (r : Reader) (k : Kernel)
    → IsTimed (trigger_dump send r k).0
unfolding trigger_dump
trigger_dump-IsTimed send r k = ground arith

wait_lem :
    (n : ℕ) (r : Reader)
    → IsTimed r
    → time_left r ≤ n
    → time_left (wait n r) ≡ 0 × IsTimed (wait n r)
unfolding wait
wait_lem zero r h e = (omega arith, h)
wait_lem (suc n) r h e =
    let next = tick-IsTimed r h in wait_lem n (tick 1 r).0 next.0 (omega (arith, next.1))

-- A dump that was asked for and is not answered is given up within five ticks of one second,
-- whatever `send` answered.
pub wait-trigger_dump :
    (send : NetlinkSocket → Kernel → Answer) (r : Reader) (k : Kernel)
    → (wait 5 (trigger_dump send r k).0).dump_request_sequence_number ≡ none
wait-trigger_dump send r k =
    let timed = trigger_dump-IsTimed send r k in
    let given_up = wait_lem 5 (trigger_dump send r k).0 timed (ground (arith, timed)) in
    ground (arith, given_up)
