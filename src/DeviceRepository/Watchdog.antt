-- ===== src/DeviceRepository/Watchdog.antt =====
-- The requests over the ticks of source/src/device_repository.cc.
use link_layer_discovery.Base.{
  ℕ, zero, suc, ◌+◌, ◌≤◌, ◌<◌, Bool, true, List, [], ◌∷◌, ◌==◌, ◌&&◌, ◌≡◌, refl, arith,
  if◌then◌else◌, has_value, ◌⊎◌, inl, inr, Bool-cases, ◌∙◌,
}
use link_layer_discovery.Base.Ints.{ℤ, pos, negsuc, ltb_int, minus, as_int}
use link_layer_discovery.Netlink.{Kernel, Request, send_get_link_dump_message}
use link_layer_discovery.Netlink.Reader
use Reader.{Reader, trigger_dump, trigger_device_dump}
use link_layer_discovery.DeviceRepository.{
  World, resync_limit, device_notice, ip_notice, tick_device_reader, tick_ip_reader, count_sync,
  tick,
}

-- The seconds until the next request, where no reader gives up before.
abbrev pub seconds : ℤ → ℕ
seconds (pos t) = t
seconds (negsuc n) = 0

-- A reader that gives up puts the next request off, at most once for each dump that it waits for.
abbrev pub delay : Reader → ℕ
delay r = if has_value r.dump_request_sequence_number then 2 else 0

abbrev pub patience : World → ℕ
patience w = seconds w.local.sync_timeout + (delay w.local.device_reader + delay w.local.ip_reader)

-- A request for all interfaces: RTM_GETLINK with NLM_F_REQUEST, NLM_F_ACK and NLM_F_DUMP, of every family.
abbrev pub is_link_dump : Request → Bool
is_link_dump r = r.nlmsg_type == 18 && r.nlmsg_flags == 773 && r.family == 0

abbrev pub link_dumps : List Request → ℕ
link_dumps [] = 0
link_dumps (r ∷ rs) = if is_link_dump r then suc (link_dumps rs) else link_dumps rs

-- The number of those made so far.
abbrev pub asked : World → ℕ
asked w = link_dumps w.kernel.requests

abbrev pub is_open : World → Bool
is_open w = w.local.device_reader.reader_socket.is_valid

-- What a part of a tick before the last one does to these.
record Waits (w w' : World) : Type 0 where
  no_later : patience w' ≤ patience w
  same_asked : asked w' ≡ asked w
  same_open : is_open w' ≡ is_open w

tick_device_reader-Waits : (w : World) → Waits w (tick_device_reader 1 w)
unfolding tick_device_reader Reader.tick device_notice
tick_device_reader-Waits w = ground arith

tick_ip_reader-Waits : (w : World) → Waits w (tick_ip_reader 1 w)
unfolding tick_ip_reader Reader.tick ip_notice
tick_ip_reader-Waits w = ground arith

-- A request is made, whatever `send` answers.
trigger_device_dump_asks :
    (r : Reader) (k : Kernel)
    → r.reader_socket.is_valid ≡ true
    → link_dumps (trigger_device_dump r k).1.requests ≡ suc (link_dumps k.requests)
unfolding trigger_dump send_get_link_dump_message
trigger_device_dump_asks r k o = ground arith

seconds-minus : (t : ℤ) → ltb_int (as_int 1) t ≡ true → seconds (minus t (as_int 1)) < seconds t
seconds-minus (pos t) h = ground arith
seconds-minus (negsuc n) h = ground arith

count_sync_lem :
    (w : World)
    → is_open w ≡ true
    → (asked w < asked (count_sync 1 w))
      ⊎ ((patience (count_sync 1 w) < patience w)
          × (asked (count_sync 1 w) ≡ asked w)
          × (is_open (count_sync 1 w) ≡ true))
unfolding count_sync
count_sync_lem w o = elim (Bool-cases (ltb_int (as_int 1) w.local.sync_timeout)) [
  | inl later ↦
      let fewer = seconds-minus w.local.sync_timeout later in
      simp (later) (inr (omega (arith, fewer), refl, o))
  | inr now ↦
      let more = trigger_device_dump_asks w.local.device_reader w.kernel o in
      simp (now) (inl (omega (arith, more)))
]

tick_lem :
    (w : World)
    → is_open w ≡ true
    → (asked w < asked (tick 1 w))
      ⊎ ((patience (tick 1 w) < patience w)
          × (asked (tick 1 w) ≡ asked w)
          × (is_open (tick 1 w) ≡ true))
unfolding tick
tick_lem w o =
    let first = tick_device_reader-Waits w in
    let second = tick_ip_reader-Waits (tick_device_reader 1 w) in
    let third =
      count_sync_lem (tick_ip_reader 1 (tick_device_reader 1 w))
        (second.same_open ∙ (first.same_open ∙ o)) in
    ground (arith, first, second, third)

trigger_device_dump-requests :
    (r : Reader) (k : Kernel)
    → link_dumps k.requests ≤ link_dumps (trigger_device_dump r k).1.requests
unfolding trigger_dump send_get_link_dump_message
trigger_device_dump-requests r k = ground arith

count_sync-asked : (w : World) → asked w ≤ asked (count_sync 1 w)
unfolding count_sync
count_sync-asked w = elim (Bool-cases (ltb_int (as_int 1) w.local.sync_timeout)) [
  | inl later ↦ simp (later) (omega arith)
  | inr now ↦ simp (now) (trigger_device_dump-requests w.local.device_reader w.kernel)
]

-- A tick takes no request back.
tick-asked : (w : World) → asked w ≤ asked (tick 1 w)
unfolding tick
tick-asked w =
    let first = tick_device_reader-Waits w in
    let second = tick_ip_reader-Waits (tick_device_reader 1 w) in
    let third = count_sync-asked (tick_ip_reader 1 (tick_device_reader 1 w)) in
    omega (arith, first.same_asked, second.same_asked, third)

pub ticks : ℕ → World → World
ticks zero w = w
ticks (suc n) w = ticks n (tick 1 w)

ticks-asked : (n : ℕ) (w : World) → asked w ≤ asked (ticks n w)
unfolding ticks
ticks-asked zero w = omega arith
ticks-asked (suc n) w = omega (arith, tick-asked w, ticks-asked n (tick 1 w))

ticks_ask :
    (n : ℕ) (w : World) → is_open w ≡ true → patience w ≤ n → asked w < asked (ticks (suc n) w)
unfolding ticks
ticks_ask zero w o h = elim (tick_lem w o) [
  | inl more ↦ more
  | inr less ↦ absurd (omega (arith, less.0))
]
ticks_ask (suc n) w o h = elim (tick_lem w o) [
  | inl more ↦ omega (arith, more, ticks-asked (suc n) (tick 1 w))
  | inr less ↦ omega (arith, less.1, ticks_ask n (tick 1 w) less.2 (omega (arith, less.0)))
]

-- As long as the clock ticks and the socket is open, the kernel is asked again: with at most 120
-- seconds on the timer, one of 125 ticks of one second sends a request of type RTM_GETLINK for all interfaces, even where
-- both readers wait for a dump that never ends and put the request off, and whatever `send` answers.
pub ticks_ask_again :
    (w : World)
    → w.local.device_reader.reader_socket.is_valid ≡ true
    → seconds w.local.sync_timeout ≤ resync_limit
    → link_dumps w.kernel.requests < link_dumps (ticks 125 w).kernel.requests
ticks_ask_again w o h = ticks_ask 124 w o (ground (arith, h))
