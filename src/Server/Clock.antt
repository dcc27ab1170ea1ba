-- ===== src/Server/Clock.antt =====
-- What ClockHandler::Call of source/src/clock_handler.cc does.
use link_layer_discovery.Base.{
  ℕ, zero, suc, ◌-◌, ◌≤◌, ◌<◌, ◌≡◌, ◌≢◌, arith, true, ltb, Bool-cases, inl, inr,
}
use link_layer_discovery.Monitor.Neighbours
use link_layer_discovery.DeviceRepository.Run.{tick_local}
use link_layer_discovery.Server.{Server, triggered, count_dump, call}

-- Counting for the dump touches neither the neighbours nor the local side.
count_dump-keeps :
    (times : ℕ) (s : Server)
    → ((count_dump times s).neighbour_list ≡ s.neighbour_list)
      × ((count_dump times s).world ≡ s.world)
unfolding count_dump
count_dump-keeps times s = ground arith

-- The lists after a call, whatever the dump timer does.
pub call-lists :
    (times : ℕ) (s : Server)
    → times ≢ 0
    → ((call (triggered times) s).neighbour_list ≡ Neighbours.tick s.neighbour_list times)
      × ((call (triggered times) s).world ≡ tick_local times s.world)
unfolding call
call-lists times s h =
    let ticked = record s {
      neighbour_list = Neighbours.tick s.neighbour_list times;
      world = tick_local times s.world;
    } in
    ground (arith, h, count_dump-keeps times ticked)

-- The calls of `n` seconds.
pub calls : ℕ → Server → Server
calls zero s = s
calls (suc n) s = calls n (call (triggered 1) s)

call_lem :
    (s : Server)
    → s.dumping_enabled ≡ true
    → ((call (triggered 1) s).dumping_enabled ≡ true)
      × (s.dumps ≤ (call (triggered 1) s).dumps)
      × ((s.dump_timer ≤ 1 → s.dumps < (call (triggered 1) s).dumps))
      × (1 < s.dump_timer → (call (triggered 1) s).dump_timer ≡ s.dump_timer - 1)
unfolding call count_dump
call_lem s e = ground (arith, e)

calls_more : (n : ℕ) (s : Server) → s.dumping_enabled ≡ true → s.dumps ≤ (calls n s).dumps
unfolding calls
calls_more zero s e = omega arith
calls_more (suc n) s e =
    let first = call_lem s e in omega (arith, first.1, calls_more n (call (triggered 1) s) first.0)

-- With dumping enabled the lists are printed by the time the dump timer runs out, which is five
-- seconds at most: of `n + 1` calls for one second each, with at most that much on the timer, one
-- prints at least.
pub calls_dump :
    (n : ℕ) (s : Server)
    → s.dumping_enabled ≡ true
    → s.dump_timer ≤ suc n
    → s.dumps < (calls (suc n) s).dumps
unfolding calls
calls_dump zero s e h = (call_lem s e).2 h
calls_dump (suc n) s e h =
    let first = call_lem s e in
    let after = call (triggered 1) s in
    elim (Bool-cases (ltb 1 s.dump_timer)) [
      | inl later ↦
          let rest = calls_dump n after first.0 (omega (arith, first.3 (ground (arith, later)))) in
          omega (arith, rest, first.1)
      | inr now ↦
          let one = first.2 (ground (arith, now)) in
          omega (arith, one, calls_more (suc n) after first.0)
    ]
