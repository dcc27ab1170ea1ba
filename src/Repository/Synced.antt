-- ===== src/Repository/Synced.antt =====
-- The senders and the new state of an update, source/src/lldp_repository.cc.
use link_layer_discovery.Base.{
  ℕ, true, false, [], ◌∷◌, none, some, ◌≡◌, refl, arith, ◌==◌, Option-cases, Bool-cases, inl, inr,
  ◌∙◌, sym, subst, ==_iff,
}
use link_layer_discovery.Base.Key.{nat_key}
use link_layer_discovery.Base.Map.{
  Map, lookup, insert, lookup-insert, lookup-Above, IsAscending, Above,
}
use link_layer_discovery.Device.{DeviceData}
use link_layer_discovery.Sender.{LldpSender, State, new_neighbour, create}
use link_layer_discovery.Sender.Update.{update}
use link_layer_discovery.Sender.Update.Copied.{
  HasAddresses, HasAddresses-trans, create-KeepsDevice, new_neighbour-KeepsDevice,
  update-HasAddresses,
}
use link_layer_discovery.Repository.{
  Repository, put_back, call_at, update_found, update_one, update_each, deletables, delete_each,
  update_state,
}
use link_layer_discovery.Repository.Contains.{call_at_other, delete_each_lem, member-deletables}

-- The interface `q` has a sender, with the name and the addresses of `d`.
pub record HasSender (q : ℕ) (d : DeviceData) (r : Repository) : Type 0 where
  pub sender : LldpSender
  pub found : lookup q r.0 ≡ some sender
  pub addresses : HasAddresses sender d

-- An interface that the rest of the new state does not name keeps its sender.
update_one_other :
    (idx q : ℕ) (d : DeviceData) (r : Repository)
    → (q == idx) ≡ false
    → lookup q (update_one idx d r).0 ≡ lookup q r.0
unfolding update_found
update_one_other idx q d (m, h) e = elim (Option-cases (lookup idx m)) [
  | inl none_there ↦
      let created = put_back idx m (create d h) in
      rw (none_there) ground
        (arith, call_at_other new_neighbour idx q created, lookup-insert idx q (create d h).0 m)
  | inr (s, there) ↦ rw (there) ground (arith, lookup-insert idx q (update d (s, h)).0 m)
]

update_each_other :
    (new_state : Map ℕ DeviceData) (q : ℕ) (r : Repository)
    → lookup q new_state ≡ none
    → lookup q (update_each new_state r).0 ≡ lookup q r.0
unfolding update_each lookup
update_each_other [] q r e = refl
update_each_other ((idx, d) ∷ new_state) q r e =
    ground (arith, update_one_other idx q d r, update_each_other new_state q (update_one idx d r))

insert_found :
    (idx : ℕ) (m : Map ℕ LldpSender) (st : State) → lookup idx (put_back idx m st).0 ≡ some st.0
insert_found idx m st = ground (arith, lookup-insert idx idx st.0 m)

update_one-HasSender :
    (idx : ℕ) (d : DeviceData) (r : Repository) → HasSender idx d (update_one idx d r)
unfolding update_found call_at
update_one-HasSender idx d (m, h) = elim (Option-cases (lookup idx m)) [
  | inl none_there ↦
      let created = create d h in
      let seen = new_neighbour created in
      rw (none_there, insert_found idx m created)
        record {
          sender = seen.0;
          found = insert_found idx (insert idx created.0 m) seen;
          addresses =
              HasAddresses-trans (new_neighbour-KeepsDevice created).addresses
                (create-KeepsDevice d h).0;
        }
  | inr (s, there) ↦
      let updated = update d (s, h) in
      rw (there) record {
        sender = updated.0;
        found = insert_found idx m updated;
        addresses = (update-HasAddresses d (s, h)).0;
      }
]

HasSender-lookup :
    (q : ℕ) (d : DeviceData) (r r' : Repository)
    → lookup q r'.0 ≡ lookup q r.0
    → HasSender q d r
    → HasSender q d r'
HasSender-lookup q d r r' e held = record {
  sender = held.sender;
  found = e ∙ held.found;
  addresses = held.addresses;
}

update_one-HasSender_at :
    (idx q : ℕ) (d d' : DeviceData) (r : Repository)
    → q ≡ idx
    → d' ≡ d
    → HasSender q d (update_one idx d' r)
update_one-HasSender_at idx q d d' r p e =
    subst (λ x. HasSender q x (update_one idx d' r)) e
      (subst (λ i. HasSender i d' (update_one idx d' r)) (sym p) (update_one-HasSender idx d' r))

lookup_first :
    (idx q : ℕ) (d d' : DeviceData) (m : Map ℕ DeviceData)
    → (q == idx) ≡ true
    → lookup q ((idx, d') ∷ m) ≡ some d
    → d' ≡ d
unfolding lookup
lookup_first idx q d d' m same e = ground (arith, same, e)

lookup_rest :
    (idx q : ℕ) (d d' : DeviceData) (m : Map ℕ DeviceData)
    → (q == idx) ≡ false
    → lookup q ((idx, d') ∷ m) ≡ some d
    → lookup q m ≡ some d
unfolding lookup
lookup_rest idx q d d' m other e = ground (arith, other, e)

lookup-Above_at :
    (idx q : ℕ) (m : Map ℕ DeviceData) → (q == idx) ≡ true → Above idx m → lookup q m ≡ none
lookup-Above_at idx q m same a = ground (arith, lookup-Above idx m a)

update_each-HasSender :
    (new_state : Map ℕ DeviceData) (q : ℕ) (d : DeviceData) (r : Repository)
    → IsAscending new_state
    → lookup q new_state ≡ some d
    → HasSender q d (update_each new_state r)
unfolding update_each lookup
update_each-HasSender [] q d r s e = ground arith
update_each-HasSender ((idx, d') ∷ new_state) q d r s e =
    let first = update_one idx d' r in
    elim (Bool-cases (q == idx)) [
      | inr other ↦
          update_each-HasSender new_state q d first s.1 (lookup_rest idx q d d' new_state other e)
      | inl same ↦
          HasSender-lookup q d first (update_each new_state first)
            (update_each_other new_state q first (lookup-Above_at idx q new_state same s.0))
            (update_one-HasSender_at idx q d d' r ((==_iff q idx).0 same)
              (lookup_first idx q d d' new_state same e))
    ]

-- After UpdateState by a map in order, each interface of that map has a sender, and that sender has
-- the name and the addresses which the map gives.
pub update_state-HasSender :
    (new_state : Map ℕ DeviceData) (q : ℕ) (d : DeviceData) (r : Repository)
    → IsAscending new_state
    → lookup q new_state ≡ some d
    → HasSender q d (update_state new_state r)
unfolding update_state
update_state-HasSender new_state q d r s e =
    let updated = update_each new_state r in
    let gone = deletables new_state updated.0 in
    HasSender-lookup q d updated (delete_each gone updated)
      (ground (arith, e, member-deletables q new_state updated.0, delete_each_lem gone q updated))
      (update_each-HasSender new_state q d r s e)
