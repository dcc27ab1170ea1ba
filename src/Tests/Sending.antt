-- ===== src/Tests/Sending.antt =====
-- The transmission state machine.
use link_layer_discovery.Base.{◌≤◌, ◌<◌, ◌+◌, List, [], ◌∷◌, ◌++◌, ◌≡◌, refl, arith, length, drop}
use link_layer_discovery.Monitor.Frames.{read_frame, stored}
use link_layer_discovery.Monitor.Frames.Stored.{IsLldpAddress}
use link_layer_discovery.Sender.{Sending, next_vector, send_lldp, create}
use link_layer_discovery.Sender.Build.{machine_id_tlv_value}
use link_layer_discovery.Sender.Invariant.{IsBounded, sendings}
use link_layer_discovery.Sender.Budget.{Event, ends, run, gains, run-create_bounds}
use link_layer_discovery.Sender.Budget
use link_layer_discovery.Sender.Progress.{IsWorking, ticks, ticks_send}
use link_layer_discovery.Sender.Delivery.{IsShaped, advertised, read_frame-send_lldp}
use link_layer_discovery.Sender.Update.{update}
use link_layer_discovery.Sender.Update.Copied.{HasAddresses, HasIdentity, update-HasAddresses}
use link_layer_discovery.Sender.Update.Switch.{update_up}
use link_layer_discovery.Tests.{eth0, eth0_down, host, sender, address}

eth0-IsShaped : IsShaped eth0
eth0-IsShaped = record { ipv4_size = refl; ipv6_size = tt; mac_size = refl }

address_accepted : IsLldpAddress address
address_accepted = record { family = refl; protocol = refl; hatype = refl; halen = refl }

sender-IsWorking : IsWorking sender
sender-IsWorking = record { up = refl; addressed = refl; indexed = omega arith }

sender-IsBounded : IsBounded (sender, host)
sender-IsBounded = record { credits = omega arith; fast = omega arith; timer = omega arith }

abbrev calls : List Event
calls = Budget.ticks 1 ∷ Budget.updates eth0_down ∷ Budget.ticks 2 ∷ ends ∷ []

vector_short : length (next_vector host) < 512
unfolding machine_id_tlv_value
vector_short = omega arith

read_frame-send_lldp_example :
    (b : Sending) × ((send_lldp 30 (sender, host)).1.log ≡ b ∷ [])
    × (b.if_index ≡ 3)
    × (read_frame address (drop 14 (b.buffer ++ (0 ∷ 0 ∷ [])))
        ≡ stored (advertised (λ l. l) (next_vector host) 30 eth0 (2 ∷ 0 ∷ 0 ∷ 0 ∷ 0 ∷ 1 ∷ []) 3))
read_frame-send_lldp_example =
    read_frame-send_lldp 30 sender host (2 ∷ 0 ∷ 0 ∷ 0 ∷ 0 ∷ 1 ∷ []) address (0 ∷ 0 ∷ []) refl
      (omega arith) eth0-IsShaped vector_short (λ l. refl) address_accepted

run-create_bounds_example :
    IsBounded (run calls (create eth0 host))
    × (sendings (run calls (create eth0 host)) ≤ length host.log + gains calls)
run-create_bounds_example = run-create_bounds eth0 host calls

ticks_send_example : 0 < sendings (ticks 2 (sender, host))
ticks_send_example = ticks_send 1 sender host sender-IsWorking sender-IsBounded (omega arith)

update-HasAddresses_example :
    HasAddresses (update eth0_down (sender, host)).0 eth0_down
    × HasIdentity (update eth0_down (sender, host)).0 eth0
update-HasAddresses_example = update-HasAddresses eth0_down (sender, host)

update_up_example :
    (update eth0 (record sender { device_data = eth0_down }, host)).0.fast_forward_counter ≡ 0
update_up_example = update_up eth0 (record sender { device_data = eth0_down }) host refl refl
