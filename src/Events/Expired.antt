-- ===== src/Events/Expired.antt =====
-- The first loops of ProcessEvents, source/src/event_handlers.cc: which events they leave.
use link_layer_discovery.Base.{
  ℕ, ◌≡◌, ◌∙◌, refl, Bool, true, false, ◌||◌, not, List, [], ◌∷◌, Option, none, some, arith,
  has_value, Option-cases, inl, inr, ◌==◌, if◌then◌else◌,
}
use link_layer_discovery.Base.Key.{nat_key}
use link_layer_discovery.Base.Map.{Map, lookup, IsAscending, lookup-Above}
use link_layer_discovery.Events.{World, events_of, remove}
use link_layer_discovery.Events.Links.{events_of-erase_event}
use link_layer_discovery.Events.Process.{expired_handlers, remove_each, remove_expired}

abbrev listed : ℕ → List ℕ → Bool
listed q [] = false
listed q (id ∷ ids) = q == id || listed q ids

-- What stays of an event: nothing where its handler has expired.
abbrev pub alive_only : World → Option ℕ → Option ℕ
alive_only w none = none
alive_only w (some h) = if has_value (w.handlers h) then some h else none

-- Whether the handler of an event has expired.
abbrev is_dead : World → Option ℕ → Bool
is_dead w none = false
is_dead w (some h) = not (has_value (w.handlers h))

expired_listed :
    (q : ℕ) (events : Map ℕ ℕ) (w : World)
    → IsAscending events
    → listed q (expired_handlers events w) ≡ is_dead w (lookup q events)
unfolding expired_handlers lookup
expired_listed q [] w a = refl
expired_listed q ((id, h) ∷ events) w a =
    ground (arith, expired_listed q events w a.1, lookup-Above id events a.0)

remove_dead :
    (m id q : ℕ) (w : World)
    → ((h : ℕ) → lookup id (events_of m w) ≡ some h → w.handlers h ≡ none)
    → ((remove m id w).1.handlers ≡ w.handlers)
      × (lookup q (events_of m (remove m id w).1)
          ≡ (if q == id then none else lookup q (events_of m w)))
unfolding remove
remove_dead m id q w dead = elim (Option-cases (lookup id (events_of m w))) [
  | inl e ↦ rw e (refl, ground (arith, e))
  | inr (h, e) ↦ rw (e, dead h e) (refl, ground (arith, events_of-erase_event m id m q w))
]

-- A loop of Remove over expired events.
remove_each_dead :
    (m q : ℕ) (ids : List ℕ) (w : World)
    → ((id h : ℕ) → listed id ids ≡ true → lookup id (events_of m w) ≡ some h → w.handlers h ≡ none)
    → lookup q (events_of m (remove_each m ids w))
      ≡ (if listed q ids then none else lookup q (events_of m w))
unfolding remove_each
remove_each_dead m q [] w dead = refl
remove_each_dead m q (id ∷ ids) w dead =
    let w' = (remove m id w).1 in
    let here : (h : ℕ) → lookup id (events_of m w) ≡ some h → w.handlers h ≡ none =
      λ h at. dead id h (ground arith) at in
    let left : (i h : ℕ)
        → listed i ids ≡ true
        → lookup i (events_of m w') ≡ some h
        → w'.handlers h ≡ none =
      λ i h inside at.
        let same = remove_dead m id i w here in
        ground (arith, inside, at, same.0, same.1, dead i h) in
    ground (arith, remove_each_dead m q ids w' left, remove_dead m id q w here)

-- Where a manager's map is in order, ProcessEvents leaves exactly the events whose handlers are alive, before it
-- waits for new ones.
pub lookup-remove_expired :
    (m q : ℕ) (w : World)
    → IsAscending (events_of m w)
    → lookup q (events_of m (remove_expired m w)) ≡ alive_only w (lookup q (events_of m w))
lookup-remove_expired m q w a =
    let events = events_of m w in
    let ids = expired_handlers events w in
    let dead : (id h : ℕ) → listed id ids ≡ true → lookup id events ≡ some h → w.handlers h ≡ none =
      λ id h inside at. ground (arith, inside, at, expired_listed id events w a) in
    ground (arith, remove_each_dead m q ids w dead, expired_listed q events w a)

remove_each_dead-handlers :
    (m : ℕ) (ids : List ℕ) (w : World)
    → ((id h : ℕ) → listed id ids ≡ true → lookup id (events_of m w) ≡ some h → w.handlers h ≡ none)
    → (remove_each m ids w).handlers ≡ w.handlers
unfolding remove_each
remove_each_dead-handlers m [] w dead = refl
remove_each_dead-handlers m (id ∷ ids) w dead =
    let w' = (remove m id w).1 in
    let here : (h : ℕ) → lookup id (events_of m w) ≡ some h → w.handlers h ≡ none =
      λ h at. dead id h (ground arith) at in
    let left : (i h : ℕ)
        → listed i ids ≡ true
        → lookup i (events_of m w') ≡ some h
        → w'.handlers h ≡ none =
      λ i h inside at.
        let same = remove_dead m id i w here in
        ground (arith, inside, at, same.0, same.1, dead i h) in
    remove_each_dead-handlers m ids w' left ∙ (remove_dead m id id w here).0

-- It changes no handler.
pub remove_expired-handlers :
    (m : ℕ) (w : World) → IsAscending (events_of m w) → (remove_expired m w).handlers ≡ w.handlers
remove_expired-handlers m w a =
    let events = events_of m w in
    remove_each_dead-handlers m (expired_handlers events w) w
      (λ id h inside at. ground (arith, inside, at, expired_listed id events w a))
