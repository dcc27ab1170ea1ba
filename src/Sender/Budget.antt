-- ===== src/Sender/Budget.antt =====
-- A sender of source/src/lldp_sender.cc over any sequence of calls: its frames and the time that passed.
use link_layer_discovery.Base.{ℕ, ◌+◌, ◌≤◌, List, [], ◌∷◌, arith, length}
use link_layer_discovery.Device.{DeviceData}
use link_layer_discovery.Sender.{
  Host, State, create, tick, trigger_transmission, new_neighbour, end_transmission,
}
use link_layer_discovery.Sender.Update.{update}
use link_layer_discovery.Sender.Invariant.{
  IsBounded, Call, sendings, create-IsBounded, tick-Call, update-Call, trigger_transmission-Call,
  new_neighbour-Call, end_transmission-Call, create-sendings,
}

-- The calls that the repository makes of a sender.
pub data Event : Type 0 where
  ticks : ℕ → Event
  updates : DeviceData → Event
  local_change new_neighbours ends : Event

pub handle : Event → State → State
handle (ticks delta) st = tick delta st
handle (updates d) st = update d st
handle local_change st = trigger_transmission st
handle new_neighbours st = new_neighbour st
handle ends st = end_transmission st

pub run : List Event → State → State
unfolding handle
run [] st = st
run (e ∷ es) st = run es (handle e st)

-- A tick of `n` seconds may pay for `n` frames, the end of the transmission for its last one.
abbrev pub gain : Event → ℕ
gain (ticks delta) = delta
gain ends = 1
gain _ = 0

abbrev pub gains : List Event → ℕ
gains [] = 0
gains (e ∷ es) = gain e + gains es

handle-Call : (e : Event) (st : State) → IsBounded st → Call (gain e) st (handle e st)
unfolding handle
handle-Call (ticks delta) st b = tick-Call delta st b
handle-Call (updates d) st b = update-Call d st b
handle-Call local_change st b = trigger_transmission-Call st b
handle-Call new_neighbours st b = new_neighbour-Call st b
handle-Call ends st b = end_transmission-Call st b

pub run-Call : (es : List Event) (st : State) → IsBounded st → Call (gains es) st (run es st)
unfolding run
run-Call [] st b = omega arith
run-Call (e ∷ es) st b =
    let first = handle-Call e st b in
    let rest = run-Call es (handle e st) first.bounded in omega arith

-- From its construction on, whatever is called and however the kernel answers, a sender keeps its
-- counters in their bounds (credits at most 5, fast transmissions at most 4, timer at most 6), and
-- has sent no more frames than seconds have been counted by its ticks, but for one at each end of
-- transmission.
pub run-create_bounds :
    (d : DeviceData) (h : Host) (es : List Event)
    → IsBounded (run es (create d h)) × (sendings (run es (create d h)) ≤ length h.log + gains es)
run-create_bounds d h es =
    let all = run-Call es (create d h) (create-IsBounded d h) in
    (all.bounded, omega (arith, create-sendings d h))
