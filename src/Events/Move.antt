-- ===== src/Events/Move.antt =====
-- The moves of EventManager, source/src/event_handlers.cc.
use link_layer_discovery.Base.{
  ℕ, ◌≡◌, ◌≢◌, ◌⊎◌, refl, [], ◌∷◌, Option, none, some, arith, Option-cases, inl, inr, ◌==◌,
  Bool-cases, if◌then◌else◌,
}
use link_layer_discovery.Base.Key.{nat_key}
use link_layer_discovery.Base.Map.{Map, lookup, IsAscending, Above, lookup-Above}
use link_layer_discovery.Base.Store.{put}
use link_layer_discovery.Events.{World, Handler, events_of, set_handler}
use link_layer_discovery.Events.Links.{IsLinked}

relink_one : ℕ → ℕ → ℕ → Option Handler → World → World
relink_one i id h none w = w
relink_one i id h (some d) w = set_handler h (record d { event_manager = some i; handle = id }) w

-- The loop over the events: the handlers that are alive are pointed to the new manager.
unfoldable pub relink : ℕ → Map ℕ ℕ → World → World
unfolding relink_one
relink i [] w = w
relink i ((id, h) ∷ events) w = relink i events (relink_one i id h (w.handlers h) w)

-- The body that both moves share: the events and the counter of `j` go to `i`, whose own events are dropped.
unfoldable pub move_manager : ℕ → ℕ → World → World
move_manager i j w = relink i (events_of j w) (record w {
  managers =
      put j (record { registered_events = []; event_id_counter = 1 })
        (put i (w.managers j) w.managers);
})

abbrev pointed : ℕ → ℕ → ℕ → Handler → World → World
pointed i id h d w = set_handler h (record d { event_manager = some i; handle = id }) w

-- The handlers of some events are registered under their own handles.
abbrev Owns : Map ℕ ℕ → World → Type 0
Owns events w =
    (id h : ℕ) (d : Handler) → lookup id events ≡ some h → w.handlers h ≡ some d → d.handle ≡ id

relink_managers : (i : ℕ) (events : Map ℕ ℕ) (w : World) → (relink i events w).managers ≡ w.managers
unfolding relink relink_one
relink_managers i [] w = refl
relink_managers i ((id, h) ∷ events) w = elim (Option-cases (w.handlers h)) [
  | inl e ↦ rw (relink, e) (relink_managers i events w)
  | inr (d, e) ↦ rw (relink, e) (relink_managers i events (pointed i id h d w))
]

relink_dead :
    (i h : ℕ) (events : Map ℕ ℕ) (w : World)
    → w.handlers h ≡ none
    → (relink i events w).handlers h ≡ none
unfolding relink relink_one
relink_dead i h [] w dead = dead
relink_dead i h ((id, k) ∷ events) w dead = elim (Option-cases (w.handlers k)) [
  | inl e ↦ rw (relink, e) (relink_dead i h events w dead)
  | inr (d, e) ↦
      let other : (pointed i id k d w).handlers h ≡ none = ground (arith, dead, e) in
      rw (relink, e) (relink_dead i h events (pointed i id k d w) other)
]

-- The rest of the events, before and after a handler was pointed to the new manager.
Owns-rest :
    (i id k : ℕ) (c : Handler) (events : Map ℕ ℕ) (w : World)
    → Above id events
    → Owns ((id, k) ∷ events) w
    → w.handlers k ≡ some c
    → Owns events (pointed i id k c w)
unfolding lookup
Owns-rest i id k c events w above owns e q h d at alive =
    ground (arith, at, alive, e, lookup-Above id events above, owns q h d, owns q k c, owns id k c)

Owns-same :
    (id k : ℕ) (events : Map ℕ ℕ) (w : World)
    → Above id events
    → Owns ((id, k) ∷ events) w
    → Owns events w
unfolding lookup
Owns-same id k events w above owns q h d at alive =
    ground (arith, at, alive, lookup-Above id events above, owns q h d)

-- A handler that has no event keeps its pointers.
relink_kept :
    (i h : ℕ) (d : Handler) (events : Map ℕ ℕ) (w : World)
    → IsAscending events
    → Owns events w
    → w.handlers h ≡ some d
    → lookup d.handle events ≢ some h
    → (relink i events w).handlers h ≡ some d
unfolding relink relink_one
relink_kept i h d [] w a owns alive out = alive
relink_kept i h d ((id, k) ∷ events) w a owns alive out =
    let out' : lookup d.handle events ≢ some h =
      λ at. out (unfold lookup in ground (arith, at, lookup-Above id events a.0)) in
    elim (Option-cases (w.handlers k)) [
      | inl e ↦
          rw (relink, e)
            (relink_kept i h d events w a.1 (Owns-same id k events w a.0 owns) alive out')
      | inr (c, e) ↦
          let same : (pointed i id k c w).handlers h ≡ some d =
            unfold lookup in ground (arith, alive, e, out, owns id k c) in
          rw (relink, e)
            (relink_kept i h d events (pointed i id k c w) a.1
              (Owns-rest i id k c events w a.0 owns e) same out')
    ]

-- A handler that has an event is pointed to the new manager, and keeps its handle.
relink_moved :
    (i h : ℕ) (d : Handler) (events : Map ℕ ℕ) (w : World)
    → IsAscending events
    → Owns events w
    → w.handlers h ≡ some d
    → lookup d.handle events ≡ some h
    → (relink i events w).handlers h ≡ some (record d { event_manager = some i })
unfolding relink relink_one
relink_moved i h d [] w a owns alive at = unfold lookup in absurd (ground (arith, at))
relink_moved i h d ((id, k) ∷ events) w a owns alive at = elim (Option-cases (w.handlers k)) [
  | inl e ↦
      let at' : lookup d.handle events ≡ some h = unfold lookup in ground (arith, at, alive, e) in
      rw (relink, e) (relink_moved i h d events w a.1 (Owns-same id k events w a.0 owns) alive at')
  | inr (c, e) ↦
      let owns' = Owns-rest i id k c events w a.0 owns e in
      elim (Bool-cases (d.handle == id)) [
        | inl hit ↦
            let d' : Handler = record d { event_manager = some i } in
            let same : (pointed i id k c w).handlers h ≡ some d' =
              unfold lookup in ground (arith, alive, e, at, hit) in
            let out : lookup d.handle events ≢ some h =
              λ there. ground (arith, there, hit, lookup-Above id events a.0) in
            rw (relink, e) (relink_kept i h d' events (pointed i id k c w) a.1 owns' same out)
        | inr miss ↦
            let at' : lookup d.handle events ≡ some h = unfold lookup in ground (arith, at, miss) in
            let same : (pointed i id k c w).handlers h ≡ some d =
              unfold lookup in ground (arith, alive, e, at, miss, owns id k c) in
            rw (relink, e) (relink_moved i h d events (pointed i id k c w) a.1 owns' same at')
      ]
]

-- A handler after the loop, and what it was before.
relink_cases :
    (i h : ℕ) (d' : Handler) (events : Map ℕ ℕ) (w : World)
    → IsAscending events
    → Owns events w
    → (relink i events w).handlers h ≡ some d'
    → (d : Handler) × (w.handlers h ≡ some d)
      × (((lookup d.handle events ≡ some h) × (d' ≡ record d { event_manager = some i }))
          ⊎ ((lookup d.handle events ≢ some h) × (d' ≡ d)))
relink_cases i h d' events w a owns after = elim (Option-cases (w.handlers h)) [
  | inl e ↦ absurd (ground (arith, after, relink_dead i h events w e))
  | inr (d, e) ↦
      let kept : lookup d.handle events ≢ some h → d' ≡ d =
        λ out. ground (arith, after, relink_kept i h d events w a owns e out) in
      elim (Option-cases (lookup d.handle events)) [
        | inl at ↦
            let out : lookup d.handle events ≢ some h = λ there. ground (arith, at, there) in
            (d, e, inr (out, kept out))
        | inr (k, at) ↦ elim (Bool-cases (k == h)) [
          | inl hit ↦
              let there : lookup d.handle events ≡ some h = ground (arith, at, hit) in
              (d, e, inl (there, ground (arith, after, relink_moved i h d events w a owns e there)))
          | inr miss ↦
              let out : lookup d.handle events ≢ some h =
                λ there. ground (arith, at, there, miss) in
              (d, e, inr (out, kept out))
        ]
      ]
]

-- A move to a manager without events, from one whose map is in order, keeps the links: every live handler of the old
-- manager points to the new one, under its old id.
pub move_manager-IsLinked :
    (i j : ℕ) (w : World)
    → i ≢ j
    → ((id : ℕ) → lookup id (events_of i w) ≡ none)
    → IsAscending (events_of j w)
    → IsLinked w
    → IsLinked (move_manager i j w)
unfolding move_manager
move_manager-IsLinked i j w other vacant a l =
    let events = events_of j w in
    let before : World = record w {
      managers =
          put j (record { registered_events = []; event_id_counter = 1 })
            (put i (w.managers j) w.managers);
    } in
    let owns : Owns events before = λ id h d at alive. (l.linked j id h d at alive).1 in
    let same = relink_managers i events before in
    let events_after : (m q : ℕ)
        → lookup q (events_of m (relink i events before)) ≡ (
            if m == j then none else if m == i then lookup q events else lookup q (events_of m w)) =
      λ m q. rw same (unfold lookup in ground (arith, other)) in
    record {
      linked = λ m id h d' at alive'.
          let (d, alive, cases) = relink_cases i h d' events before a owns alive' in
          ground (
            arith,
            other,
            at,
            cases,
            events_after m id,
            l.linked j id h d,
            l.linked j d.handle h d,
            l.linked m id h d,
            alive,
          );
      registered = λ h m d' alive' to.
          let (d, alive, cases) = relink_cases i h d' events before a owns alive' in
          ground (
            arith,
            other,
            to,
            cases,
            alive,
            events_after m d.handle,
            l.registered h m d alive,
            vacant d.handle,
          );
      no_zero = λ m. ground (arith, events_after m 0, l.no_zero m, l.no_zero j);
    }
