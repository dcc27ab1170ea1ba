-- ===== src/Repository.antt =====
-- LldpRepository, source/src/lldp_repository.cc: one sender for each local interface.
pub mod Moves
pub mod Contains
pub mod Synced
pub mod Bounded
use link_layer_discovery.Base.{ℕ, Bool, List, [], ◌∷◌, Option, none, some, has_value, if◌then◌else◌}
use link_layer_discovery.Base.Key.{nat_key}
use link_layer_discovery.Base.Map.{Map, lookup, insert, erase}
use link_layer_discovery.Device.{DeviceData}
use link_layer_discovery.Sender.{
  LldpSender, Host, State, local_change_detected, end_transmission, new_neighbour, create, tick,
}
use link_layer_discovery.Sender.Update.{update}

-- `current_state_`, and the host that all the senders share.
abbrev pub Repository : Type 0
Repository = Map ℕ LldpSender × Host

-- What a method leaves in a sender of the map.
abbrev pub put_back : ℕ → Map ℕ LldpSender → State → Repository
put_back idx m (s, h) = (insert idx s m, h)

abbrev pub call_found : (State → State) → ℕ → Option LldpSender → Repository → Repository
call_found f idx none r = r
call_found f idx (some s) (m, h) = put_back idx m (f (s, h))

-- `if (current_state_.contains(idx)) current_state_.at(idx).f()`
unfoldable pub call_at : (State → State) → ℕ → Repository → Repository
call_at f idx (m, h) = call_found f idx (lookup idx m) (m, h)

abbrev pub mark_changed_lldp_state_machine : ℕ → Repository → Repository
mark_changed_lldp_state_machine idx r = call_at local_change_detected idx r

abbrev pub create_lldp_state_machine : ℕ → Repository → Repository
create_lldp_state_machine idx r = call_at new_neighbour idx r

abbrev pub erase_at : ℕ → Repository → Repository
erase_at idx (m, h) = (erase idx m, h)

-- DeleteLldpStateMachine: to erase a key that is not there changes nothing.
unfoldable pub delete_lldp_state_machine : ℕ → Repository → Repository
delete_lldp_state_machine idx (m, h) =
    if has_value (lookup idx m) then erase_at idx (call_at end_transmission idx (m, h)) else (m, h)

-- The body of the first loop of UpdateState, by whether the index is known.
unfoldable pub update_found : ℕ → DeviceData → Option LldpSender → Repository → Repository
update_found idx d (some s) (m, h) = put_back idx m (update d (s, h))
update_found idx d none (m, h) = create_lldp_state_machine idx (put_back idx m (create d h))

abbrev pub update_one : ℕ → DeviceData → Repository → Repository
update_one idx d (m, h) = update_found idx d (lookup idx m) (m, h)

unfoldable pub update_each : Map ℕ DeviceData → Repository → Repository
update_each [] r = r
update_each ((idx, d) ∷ new_state) r = update_each new_state (update_one idx d r)

-- The second loop.
unfoldable pub deletables : Map ℕ DeviceData → Map ℕ LldpSender → List ℕ
deletables new_state [] = []
deletables new_state ((idx, s) ∷ m) =
    if has_value (lookup idx new_state)
    then deletables new_state m
    else idx ∷ deletables new_state m

-- The third.
unfoldable pub delete_each : List ℕ → Repository → Repository
delete_each [] r = r
delete_each (idx ∷ rest) r = delete_each rest (delete_lldp_state_machine idx r)

-- UpdateState
unfoldable pub update_state : Map ℕ DeviceData → Repository → Repository
update_state new_state r =
    let updated = update_each new_state r in delete_each (deletables new_state updated.0) updated

-- Tick, the loop over the senders.
unfoldable pub tick_each : ℕ → Map ℕ LldpSender → Host → Repository
tick_each delta [] h = ([], h)
tick_each delta ((idx, s) ∷ m) h =
    let (s', h') = tick delta (s, h) in
    let (m', h'') = tick_each delta m h' in ((idx, s') ∷ m', h'')
