-- ===== src/Repository/Contains.antt =====
-- Which interfaces have a sender, source/src/lldp_repository.cc.
use link_layer_discovery.Base.{
  ℕ, Bool, false, List, [], ◌∷◌, none, has_value, if◌then◌else◌, ◌≡◌, refl, arith, ◌==◌, ◌&&◌, ◌||◌,
  not, Option-cases, inl, inr,
}
use link_layer_discovery.Base.Key.{nat_key}
use link_layer_discovery.Base.Map.{Map, lookup, lookup-insert, lookup-erase}
use link_layer_discovery.Device.{DeviceData}
use link_layer_discovery.Sender.{LldpSender, State, end_transmission, new_neighbour, create}
use link_layer_discovery.Sender.Update.{update}
use link_layer_discovery.Repository.{
  Repository, put_back, call_at, delete_lldp_state_machine, update_found, update_one, update_each,
  deletables, delete_each, update_state,
}

-- `current_state_.contains(q)`
abbrev pub contains : ℕ → Repository → Bool
contains q r = has_value (lookup q r.0)

abbrev member : ℕ → List ℕ → Bool
member q [] = false
member q (i ∷ l) = (q == i) || member q l

-- A method on one sender leaves the others.
pub call_at_other :
    (f : State → State) (idx q : ℕ) (r : Repository)
    → (q == idx) ≡ false
    → lookup q (call_at f idx r).0 ≡ lookup q r.0
unfolding call_at
call_at_other f idx q (m, h) e = elim (Option-cases (lookup idx m)) [
  | inl none_there ↦ rw (none_there) refl
  | inr (s, there) ↦ rw (there) ground (arith, lookup-insert idx q (f (s, h)).0 m)
]

pub delete_lem :
    (idx q : ℕ) (r : Repository)
    → lookup q (delete_lldp_state_machine idx r).0 ≡ (if q == idx then none else lookup q r.0)
unfolding delete_lldp_state_machine
delete_lem idx q (m, h) =
    let called = call_at end_transmission idx (m, h) in
    ground (arith, lookup-erase idx q called.0, call_at_other end_transmission idx q (m, h))

pub delete_each_lem :
    (l : List ℕ) (q : ℕ) (r : Repository)
    → lookup q (delete_each l r).0 ≡ (if member q l then none else lookup q r.0)
unfolding delete_each
delete_each_lem [] q r = refl
delete_each_lem (idx ∷ l) q r =
    ground (arith, delete_lem idx q r, delete_each_lem l q (delete_lldp_state_machine idx r))

pub member-deletables :
    (q : ℕ) (new_state : Map ℕ DeviceData) (m : Map ℕ LldpSender)
    → member q (deletables new_state m)
      ≡ (has_value (lookup q m) && not (has_value (lookup q new_state)))
unfolding deletables lookup
member-deletables q new_state [] = refl
member-deletables q new_state ((idx, s) ∷ m) = ground (arith, member-deletables q new_state m)

contains-call_at :
    (f : State → State) (idx q : ℕ) (r : Repository) → contains q (call_at f idx r) ≡ contains q r
unfolding call_at
contains-call_at f idx q (m, h) = elim (Option-cases (lookup idx m)) [
  | inl none_there ↦ rw (none_there) refl
  | inr (s, there) ↦ rw (there) ground (arith, lookup-insert idx q (f (s, h)).0 m)
]

contains-update_one :
    (idx q : ℕ) (d : DeviceData) (r : Repository)
    → contains q (update_one idx d r) ≡ ((q == idx) || contains q r)
unfolding update_found
contains-update_one idx q d (m, h) = elim (Option-cases (lookup idx m)) [
  | inl none_there ↦
      let created = put_back idx m (create d h) in
      rw (none_there) ground
        (arith, contains-call_at new_neighbour idx q created, lookup-insert idx q (create d h).0 m)
  | inr (s, there) ↦ rw (there) ground (arith, lookup-insert idx q (update d (s, h)).0 m)
]

contains-update_each :
    (new_state : Map ℕ DeviceData) (q : ℕ) (r : Repository)
    → contains q (update_each new_state r) ≡ (has_value (lookup q new_state) || contains q r)
unfolding update_each lookup
contains-update_each [] q r = refl
contains-update_each ((idx, d) ∷ new_state) q r =
    ground
      (arith, contains-update_one idx q d r, contains-update_each new_state q (update_one idx d r))

-- After UpdateState the interfaces that have a sender are exactly those of the new state, whatever
-- senders there were before.
pub update_state-contains :
    (new_state : Map ℕ DeviceData) (q : ℕ) (r : Repository)
    → contains q (update_state new_state r) ≡ has_value (lookup q new_state)
unfolding update_state
update_state-contains new_state q r =
    let updated = update_each new_state r in
    ground (
      arith,
      contains-update_each new_state q r,
      member-deletables q new_state updated.0,
      delete_each_lem (deletables new_state updated.0) q updated,
    )
