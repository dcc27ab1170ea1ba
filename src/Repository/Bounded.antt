-- ===== src/Repository/Bounded.antt =====
-- The order of the map and the counters of its senders, source/src/lldp_repository.cc.
use link_layer_discovery.Base.{ℕ, List, [], ◌∷◌, some, ◌≡◌, arith, Option-cases, inl, inr}
use link_layer_discovery.Base.Key.{nat_key}
use link_layer_discovery.Base.Map.{
  Map, lookup, lookup-insert, lookup-erase, IsAscending, insert-IsAscending, erase-IsAscending,
}
use link_layer_discovery.Device.{DeviceData}
use link_layer_discovery.Sender.{LldpSender, State, new_neighbour, create, end_transmission}
use link_layer_discovery.Sender.Invariant.{
  IsBounded, create-IsBounded, new_neighbour-Call, update-Call, end_transmission-Call,
}
use link_layer_discovery.Sender.Update.{update}
use link_layer_discovery.Repository.{
  Repository, put_back, call_at, erase_at, delete_lldp_state_machine, update_found, update_one,
  update_each, deletables, delete_each, update_state,
}

-- The keys ascend, and the counters of each sender are bounded.
pub record IsValid (r : Repository) : Type 0 where
  pub ascending : IsAscending r.0
  pub bounded : (q : ℕ) (s : LldpSender) → lookup q r.0 ≡ some s → IsBounded (s, r.1)

put_back-IsValid :
    (idx : ℕ) (r : Repository) (st : State)
    → IsValid r
    → IsBounded st
    → IsValid (put_back idx r.0 st)
put_back-IsValid idx (m, h) st v b = record {
  ascending = insert-IsAscending idx st.0 m v.ascending;
  bounded = λ q s found. ground (arith, lookup-insert idx q st.0 m, v.bounded q s);
}

call_at-IsValid :
    (f : State → State) (idx : ℕ) (r : Repository)
    → ((st : State) → IsBounded st → IsBounded (f st))
    → IsValid r
    → IsValid (call_at f idx r)
unfolding call_at
call_at-IsValid f idx (m, h) keeps v = elim (Option-cases (lookup idx m)) [
  | inl none_there ↦ rw (none_there) v
  | inr (s, there) ↦
      rw (there) (put_back-IsValid idx (m, h) (f (s, h)) v (keeps (s, h) (v.bounded idx s there)))
]

erase_at-IsValid : (idx : ℕ) (r : Repository) → IsValid r → IsValid (erase_at idx r)
erase_at-IsValid idx (m, h) v = record {
  ascending = erase-IsAscending idx m v.ascending;
  bounded = λ q s found. ground (arith, lookup-erase idx q m, v.bounded q s);
}

delete-IsValid : (idx : ℕ) (r : Repository) → IsValid r → IsValid (delete_lldp_state_machine idx r)
unfolding delete_lldp_state_machine
delete-IsValid idx (m, h) v =
    let called =
      call_at-IsValid end_transmission idx (m, h) (λ st b. (end_transmission-Call st b).bounded)
        v in
    ground (arith, v, erase_at-IsValid idx (call_at end_transmission idx (m, h)) called)

update_one-IsValid :
    (idx : ℕ) (d : DeviceData) (r : Repository) → IsValid r → IsValid (update_one idx d r)
unfolding update_found
update_one-IsValid idx d (m, h) v = elim (Option-cases (lookup idx m)) [
  | inl none_there ↦ rw (none_there) (
      call_at-IsValid new_neighbour idx (put_back idx m (create d h))
        (λ st b. (new_neighbour-Call st b).bounded)
        (put_back-IsValid idx (m, h) (create d h) v (create-IsBounded d h)))
  | inr (s, there) ↦ rw (there) (
      put_back-IsValid idx (m, h) (update d (s, h)) v
        (update-Call d (s, h) (v.bounded idx s there)).bounded)
]

update_each-IsValid :
    (new_state : Map ℕ DeviceData) (r : Repository) → IsValid r → IsValid (update_each new_state r)
unfolding update_each
update_each-IsValid [] r v = v
update_each-IsValid ((idx, d) ∷ new_state) r v =
    update_each-IsValid new_state (update_one idx d r) (update_one-IsValid idx d r v)

delete_each-IsValid : (l : List ℕ) (r : Repository) → IsValid r → IsValid (delete_each l r)
unfolding delete_each
delete_each-IsValid [] r v = v
delete_each-IsValid (idx ∷ l) r v =
    delete_each-IsValid l (delete_lldp_state_machine idx r) (delete-IsValid idx r v)

-- Where the map is in order and the counters of every sender are within their bounds, it is so after
-- UpdateState.
pub update_state-IsValid :
    (new_state : Map ℕ DeviceData) (r : Repository) → IsValid r → IsValid (update_state new_state r)
unfolding update_state
update_state-IsValid new_state r v =
    let updated = update_each new_state r in
    delete_each-IsValid (deletables new_state updated.0) updated (update_each-IsValid new_state r v)
