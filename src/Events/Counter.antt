-- ===== src/Events/Counter.antt =====
-- The search for a free id in Add, source/src/event_handlers.cc.
use link_layer_discovery.Base.{
  ℕ, zero, suc, ◌+◌, ◌^◌, ◌≤◌, ◌<◌, ◌≡◌, refl, Bool, true, false, [], ◌∷◌, none, arith, length,
  has_value, subst, Option-cases, Bool-cases, inl, inr,
}
use link_layer_discovery.Base.Key.{nat_key}
use link_layer_discovery.Base.Map.{Map, lookup, erase, lookup-erase}
use link_layer_discovery.Base.Words.{u64}
use link_layer_discovery.Events.{free_id}

abbrev contains : ℕ → Map ℕ ℕ → Bool
contains id events = has_value (lookup id events)

-- Erasing takes no entry in, and at least the one that is there out.
pub length-erase : (id : ℕ) (events : Map ℕ ℕ) → length (erase id events) ≤ length events
unfolding erase
length-erase id [] = omega arith
length-erase id ((j, h) ∷ events) = ground (arith, length-erase id events)

erase_shorter :
    (id : ℕ) (events : Map ℕ ℕ)
    → contains id events ≡ true
    → length (erase id events) < length events
unfolding erase lookup
erase_shorter id [] h = cc
erase_shorter id ((j, k) ∷ events) h =
    ground (arith, h, length-erase id events, erase_shorter id events)

-- The search reads only the ids from the counter on, if it does not wrap.
free_id-erase :
    (fuel counter id : ℕ) (events : Map ℕ ℕ)
    → id < counter
    → counter + fuel < 2 ^ 64
    → free_id fuel counter (erase id events) ≡ free_id fuel counter events
unfolding free_id
free_id-erase zero counter id events below small = refl
free_id-erase (suc fuel) counter id events below small =
    let next : u64 (suc counter) ≡ suc counter = omega arith in
    let rest = free_id-erase fuel (suc counter) id events (omega arith) (omega arith) in
    rw next (ground (arith, rest, lookup-erase id counter events))

free_id_above :
    (fuel counter : ℕ) (events : Map ℕ ℕ)
    → counter + fuel < 2 ^ 64
    → counter ≤ free_id fuel counter events
unfolding free_id
free_id_above zero counter events small = omega arith
free_id_above (suc fuel) counter events small =
    let next : u64 (suc counter) ≡ suc counter = omega arith in
    let rest = free_id_above fuel (suc counter) events (omega arith) in
    rw next (ground (arith, rest))

free_id_taken :
    (fuel counter : ℕ) (events : Map ℕ ℕ)
    → counter + suc fuel < 2 ^ 64
    → contains counter events ≡ true
    → free_id (suc fuel) counter events ≡ free_id fuel (suc counter) events
unfolding free_id
free_id_taken fuel counter events small e =
    let next : u64 (suc counter) ≡ suc counter = omega arith in rw next (ground (arith, e))

free_id-contains :
    (fuel counter : ℕ) (events : Map ℕ ℕ)
    → length events < fuel
    → counter + fuel < 2 ^ 64
    → contains (free_id fuel counter events) events ≡ false
free_id-contains zero counter events enough small = absurd (omega arith)
free_id-contains (suc fuel) counter events enough small =
    elim (Bool-cases (contains counter events)) [
      | inr e ↦ unfold free_id in ground (arith, e)
      | inl e ↦
          let fewer = erase counter events in
          let shorter = erase_shorter counter events e in
          let id = free_id fuel (suc counter) events in
          let rest : contains (free_id fuel (suc counter) fewer) fewer ≡ false =
            free_id-contains fuel (suc counter) fewer (omega arith) (omega arith) in
          let same = free_id-erase fuel (suc counter) counter events (omega arith) (omega arith) in
          let above = free_id_above fuel (suc counter) events (omega arith) in
          let free : contains id fewer ≡ false = subst (λ i. contains i fewer ≡ false) same rest in
          rw (free_id_taken fuel counter events small e)
            (ground (arith, free, above, lookup-erase counter id events))
    ]

-- The fuel of Add's loop over the counter is enough while the counter does not reach its maximum: the id that
-- it ends with is not registered.
pub next_id_free :
    (counter : ℕ) (events : Map ℕ ℕ)
    → counter + suc (length events) < 2 ^ 64
    → lookup (free_id (suc (length events)) counter events) events ≡ none
next_id_free counter events small =
    let id = free_id (suc (length events)) counter events in
    let free = free_id-contains (suc (length events)) counter events (omega arith) small in
    elim (Option-cases (lookup id events)) [
      | inl e ↦ e
      | inr (h, e) ↦ absurd (ground (arith, free, e))
    ]

-- The search goes upwards.
pub next_id_positive :
    (counter : ℕ) (events : Map ℕ ℕ)
    → counter + suc (length events) < 2 ^ 64
    → counter ≤ free_id (suc (length events)) counter events
next_id_positive counter events small = free_id_above (suc (length events)) counter events small
