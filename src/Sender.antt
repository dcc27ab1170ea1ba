-- ===== src/Sender.antt =====
-- LldpSender, source/src/lldp_sender.cc: the transmission state machine of one interface.
pub mod Build
pub mod Update
pub mod Invariant
pub mod Budget
pub mod Progress
pub mod Delivery
use link_layer_discovery.Base.{
  ℕ, suc, ◌+◌, ◌-◌, ◌≤◌, Bool, true, false, List, [], ◌∷◌, Option, none, some, length, ltb, leb,
  has_value, ◌==◌, ◌&&◌, ◌||◌, not, if◌then◌else◌,
}
use link_layer_discovery.Base.Words.{u16, u64}
use link_layer_discovery.Base.Key.{bytes_beq}
use link_layer_discovery.Device.{DeviceData}
use link_layer_discovery.Packet.Frame
use Build.{machine_id_tlv_value, construct_frame}

-- MAX_TRANSMIT_CREDITS, FAST_TRANSMIT_AMOUNT, TARGET_TTL, and the two intervals; 6 is
-- TARGET_TTL / PACKET_HOLD_AMOUNT.
abbrev pub max_transmit_credits : ℕ
max_transmit_credits = 5

abbrev pub fast_transmit_amount : ℕ
fast_transmit_amount = 4

abbrev pub target_ttl : ℕ
target_ttl = 30

abbrev pub message_transmit_interval : ℕ
message_transmit_interval = 6

abbrev pub message_fast_interval : ℕ
message_fast_interval = 1

abbrev pub int_max : ℕ
int_max = 2147483647

pub record LldpSender : Type 0 where
  pub device_data : DeviceData
  pub transmit_timer : ℕ  -- uint16_t
  pub transmit_credits : ℕ  -- uint16_t
  pub fast_forward_counter : ℕ  -- uint16_t
  pub trigger_ready : Bool

-- How `sendto` ends: with the bytes sent, with ENETDOWN, or with another error.
pub data Reply : Type 0 where
  sent net_down failed : Reply

-- One call of `sendto`: the interface index of the address, and the buffer.
pub record Sending : Type 0 where
  pub if_index : ℕ
  pub buffer : List ℕ

-- The world around the senders: what getMachineId returns at the n-th `sendto`, the static vector of
-- getMachineIdTlvValue, what is read then of a local array that is gone and held these bytes, the kernel's answer
-- to the n-th `sendto`, and the calls that were made, the last one first.
pub record Host : Type 0 where
  pub machine_id : ℕ → List ℕ
  pub machine_id_vector : List ℕ
  pub gone : ℕ → List ℕ → List ℕ
  pub reply : ℕ → Reply
  pub log : List Sending

-- A method takes the sender and the host, and returns both.
abbrev pub State : Type 0
State = LldpSender × Host

-- The body of DisableSender is empty.
disable_sender : State → State
disable_sender st = st

-- The vector at the next `sendto`.
abbrev pub next_vector : Host → List ℕ
next_vector h = machine_id_tlv_value h.machine_id_vector (h.machine_id (length h.log))

-- constructFrame, and sendFrame up to the answer.
transmit : ℕ → List ℕ → State → Host
transmit ttl mac (s, h) = record h {
  machine_id_vector = next_vector h;
  log =
      record {
        if_index = s.device_data.if_index;
        buffer =
            Frame.to_frame_buffer
              (construct_frame (h.gone (length h.log)) (next_vector h) ttl s.device_data mac);
      }
      ∷ h.log;
}

-- What SendLldp does with the answer.
after_reply : Reply → State → State
unfolding disable_sender
after_reply sent st = st
after_reply failed st = st
after_reply net_down (s, h) =
    disable_sender
      (record s { device_data = record (s.device_data) { device_operational = false } }, h)

send_from : ℕ → Option (List ℕ) → State → State
unfolding transmit after_reply
send_from ttl none st = st
send_from ttl (some mac) (s, h) = after_reply (h.reply (length h.log)) (s, transmit ttl mac (s, h))

-- SendLldp
unfoldable pub send_lldp : ℕ → State → State
unfolding send_from
send_lldp ttl (s, h) =
    if ltb int_max s.device_data.if_index
    then (s, h)
    else send_from ttl s.device_data.mac_address (s, h)

-- EndTransmission
unfoldable pub end_transmission : State → State
end_transmission (s, h) = if has_value s.device_data.mac_address then send_lldp 0 (s, h) else (s, h)

-- TryTransmit
unfoldable pub try_transmit : State → State
try_transmit (s, h) =
    if s.trigger_ready && (ltb 0 s.transmit_credits && has_value s.device_data.mac_address)
    then send_lldp target_ttl
        (record s { trigger_ready = false; transmit_credits = s.transmit_credits - 1 }, h)
    else (s, h)

-- TriggerTransmission, which is all that LocalChangeDetected does.
unfoldable pub trigger_transmission : State → State
trigger_transmission (s, h) = try_transmit (
  record s {
    transmit_timer =
        if ltb 0 s.fast_forward_counter then message_fast_interval else message_transmit_interval;
    trigger_ready = true;
  },
  h,
)

abbrev pub local_change_detected : State → State
local_change_detected = trigger_transmission

-- TimerExpired: where the counter is 0 it stays.
unfoldable pub timer_expired : State → State
timer_expired (s, h) =
    trigger_transmission (record s { fast_forward_counter = s.fast_forward_counter - 1 }, h)

-- NewNeighbour, which is all that EnableSender does.
unfoldable pub new_neighbour : State → State
new_neighbour (s, h) = timer_expired (
  record s {
    fast_forward_counter =
        if s.fast_forward_counter == 0 then fast_transmit_amount else s.fast_forward_counter;
  },
  h,
)

abbrev pub enable_sender : State → State
enable_sender = new_neighbour

-- The members before the body of the constructor.
abbrev pub fresh : DeviceData → LldpSender
fresh d = record {
  device_data = d;
  transmit_timer = 0;
  transmit_credits = 0;
  fast_forward_counter = 0;
  trigger_ready = false;
}

-- The constructor.
unfoldable pub create : DeviceData → Host → State
unfolding disable_sender
create d h =
    if d.device_operational then enable_sender (fresh d, h) else disable_sender (fresh d, h)

-- The two `if`s at the head of Tick: the credits and the timer. The sum with a uint64_t is one.
pub count_credits : ℕ → LldpSender → LldpSender
count_credits delta s =
    if leb (u64 (s.transmit_credits + delta)) max_transmit_credits
    then record s { transmit_credits = u16 (s.transmit_credits + delta) }
    else s

pub count_timer : ℕ → State → State
count_timer delta (s, h) =
    if ltb delta s.transmit_timer
    then (record s { transmit_timer = s.transmit_timer - delta }, h)
    else timer_expired (record s { transmit_timer = 0 }, h)

-- Tick
unfoldable pub tick : ℕ → State → State
unfolding count_credits count_timer
tick delta (s, h) =
    if s.device_data.device_operational
    then try_transmit (count_timer delta (count_credits delta s, h))
    else (s, h)
