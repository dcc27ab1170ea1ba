-- ===== src/Server/Startup.antt =====
-- The last loop of initializeHandlers, source/src/server_main.cc: every handler is added to the manager.
use link_layer_discovery.Base.{
  ℕ, suc, ◌+◌, ◌*◌, ◌^◌, ◌<◌, ◌≤◌, ◌≡◌, ◌∙◌, refl, ap, subst, true, false, List, [], ◌∷◌, Option,
  none, some, arith, All, length, ◌>>=◌, if◌then◌else◌,
}
use link_layer_discovery.Base.Words.{u64}
use link_layer_discovery.Base.Key.{nat_key}
use link_layer_discovery.Base.Map.{Map, lookup, insert, lookup-insert}
use link_layer_discovery.Base.Store.{put}
use link_layer_discovery.Events.{
  World, Handler, Added, added, failed, events_of, leave_old, unlinked, add,
}
use link_layer_discovery.Events.Links.{IsLinked}
use link_layer_discovery.Events.Adding.{IsReady, left_by, add-IsLinked}
use link_layer_discovery.Events.Unjoined.{add_unjoined}
use link_layer_discovery.Server.Shutdown.{
  listed, IsDistinct, JoinedTo, let_go, shut_down, shut_down_ends,
}

-- unwrapOrLog of the result of Add: `none` is `exit(-1)`.
unfoldable pub unwrap_added : Added × World → Option World
unwrap_added (failed error, w) = none
unwrap_added (added id, w) = some w

add_found : ℕ → ℕ → Option Handler → World → Option World
add_found m h none w = none
add_found m h (some d) w = unwrap_added (add m h d w)

unfoldable pub start_up : ℕ → List ℕ → World → Option World
unfolding add_found
start_up m [] w = some w
start_up m (h ∷ hs) w = do v ← add_found m h (w.handlers h) w; start_up m hs v

-- A handler that was just made.
abbrev pub IsUnjoined : World → ℕ → Type 0
IsUnjoined w h = (d : Handler) × (w.handlers h ≡ some d) × (d.event_manager ≡ none)

-- No id from the counter on is taken, and some more handlers fit.
pub record HasRoom (m n : ℕ) (w : World) : Type 0 where
  pub above : (q : ℕ) → (w.managers m).event_id_counter ≤ q → lookup q (events_of m w) ≡ none
  pub positive : 0 < (w.managers m).event_id_counter
  pub bounded : (w.managers m).event_id_counter + length (events_of m w) + 2 * n + 2 < 2 ^ 64

length-insert : (k v : ℕ) (events : Map ℕ ℕ) → length (insert k v events) ≤ suc (length events)
unfolding insert
length-insert k v [] = omega arith
length-insert k v ((j, w) ∷ events) = ground (arith, length-insert k v events)

pub unwrap_good :
    (id : ℕ) (result : Added × World) → result.0 ≡ added id → unwrap_added result ≡ some result.1
unfolding unwrap_added
unwrap_good id (added i, w) e = refl
unwrap_good id (failed error, w) e = absurd (ground (arith, e))

pub unjoined-IsReady :
    (m n h : ℕ) (d : Handler) (w : World)
    → w.handlers h ≡ some d
    → d.event_manager ≡ none
    → HasRoom m n w
    → IsReady m h d (left_by d w)
unfolding leave_old
unjoined-IsReady m n h d w there lone room = rw lone (record {
  before = d;
  there = there;
  outside = lone;
  positive = room.positive;
  bounded = let b = room.bounded in omega arith;
})

pub IsUnjoined-rest :
    (h : ℕ) (d : Handler) (hs : List ℕ) (w v : World)
    → v.handlers ≡ put h (some d) w.handlers
    → listed h hs ≡ false
    → All (IsUnjoined w) hs
    → All (IsUnjoined v) hs
IsUnjoined-rest h d [] w v same out all = tt
IsUnjoined-rest h d (k ∷ ks) w v same out all =
    let (c, there, lone) = all.0 in
    (
      (c, rw same (ground (arith, out, there)), lone),
      IsUnjoined-rest h d ks w v same (ground (arith, out)) all.1,
    )

-- One more handler leaves room for one less.
pub room_rest :
    (m n h : ℕ) (w v : World)
    → HasRoom m (suc n) w
    → v.managers m ≡ record {
      registered_events = insert (w.managers m).event_id_counter h (events_of m w);
      event_id_counter = u64 (suc (w.managers m).event_id_counter);
    }
    → HasRoom m n v
room_rest m n h w v room same =
    let counter = (w.managers m).event_id_counter in
    let b = room.bounded in
    let p = room.positive in
    let next : u64 (suc counter) ≡ suc counter = omega arith in
    let longer = length-insert counter h (events_of m w) in
    let events : events_of m v ≡ insert counter h (events_of m w) =
      ap (λ manager. manager.registered_events) same in
    record {
      above = λ q le.
          let reached : u64 (suc counter) ≤ q =
            subst (λ manager. manager.event_id_counter ≤ q) same le in
          let low : counter < q = omega arith in
          rw events (
            ground
              (arith, low, lookup-insert counter q h (events_of m w), room.above q (omega arith)));
      positive = rw (same, next) (omega arith);
      bounded = rw (events, same, next) (omega (arith, longer));
    }

-- Where every handler of the list is new, none stands twice, epoll_ctl refuses nothing and there is room for them below the
-- largest id, the loop comes to its end without an exit, every handler of the list then points to the
-- manager, and the links hold.
pub start_up_joins :
    (m : ℕ) (hs : List ℕ) (w : World)
    → IsLinked w
    → IsDistinct hs
    → All (IsUnjoined w) hs
    → HasRoom m (length hs) w
    → ((n : ℕ) → w.answer n ≡ none)
    → (v : World) × (start_up m hs w ≡ some v)
      × IsLinked v
      × All (JoinedTo m v) hs
      × ((k : ℕ) → listed k hs ≡ false → v.handlers k ≡ w.handlers k)
      × (v.answer ≡ w.answer)
unfolding start_up
start_up_joins m [] w l distinct all room good = (w, refl, l, tt, λ k out. refl, refl)
start_up_joins m (h ∷ hs) w l distinct all room good =
    let (d, there, lone) = all.0 in
    let free = room.above (w.managers m).event_id_counter (omega arith) in
    let r = add_unjoined m h d w lone (good (length w.calls)) free in
    let u = (add m h d w).1 in
    let joined = record d { event_manager = some m; handle = (w.managers m).event_id_counter } in
    let l' = add-IsLinked m h d w (unjoined-IsReady m (length (h ∷ hs)) h d w there lone room) l in
    let all' = IsUnjoined-rest h joined hs w u r.1 distinct.0 all.1 in
    let room' = room_rest m (length hs) h w u room r.3 in
    let good' : (n : ℕ) → u.answer n ≡ none = λ n. rw r.2 (good n) in
    let (v, ran, linked, joins, others, same) =
      start_up_joins m hs u l' distinct.1 all' room' good' in
    let first = unwrap_good (w.managers m).event_id_counter (add m h d w) r.0 in
    let mine : v.handlers h ≡ some joined =
      ground (arith, others h distinct.0, ap (λ f. f h) r.1) in
    (
      v,
      rw (there, first) ran,
      linked,
      ((joined, mine, refl), joins),
      λ k out. ground (arith, out, others k, ap (λ f. f k) r.1),
      same ∙ r.2,
    )

pub All-let_go :
    (m : ℕ) (ks hs : List ℕ) (v u : World)
    → ((k : ℕ) → listed k ks ≡ true → listed k hs ≡ true)
    → All (JoinedTo m v) ks
    → ((k : ℕ) → u.handlers k ≡ (if listed k hs then let_go (v.handlers k) else v.handlers k))
    → All (IsUnjoined u) ks
All-let_go m [] hs v u inside joins after = tt
All-let_go m (k ∷ ks) hs v u inside joins after =
    let (d, there, joined) = joins.0 in
    let here : listed k hs ≡ true = inside k (ground arith) in
    (
      (unlinked d, ground (arith, after k, here, there), refl),
      All-let_go m ks hs v u (λ i at. inside i (ground (arith, at))) joins.1 after,
    )

-- Under the same conditions, adding the handlers and then removing them comes to its end without an exit, and no
-- handler of the list has a manager.
pub start_up-shut_down :
    (m : ℕ) (hs : List ℕ) (w : World)
    → IsLinked w
    → IsDistinct hs
    → All (IsUnjoined w) hs
    → HasRoom m (length hs) w
    → ((n : ℕ) → w.answer n ≡ none)
    → (u : World) × ((start_up m hs w >>= λ v. shut_down m hs v) ≡ some u)
      × IsLinked u
      × All (IsUnjoined u) hs
start_up-shut_down m hs w l distinct all room good =
    let (v, started, linked, joins, others, same) =
      start_up_joins m hs w l distinct all room good in
    let good' : (n : ℕ) → v.answer n ≡ none = λ n. rw same (good n) in
    let (u, ended, linked', after) = shut_down_ends m hs v linked distinct joins good' in
    (u, rw (started) ended, linked', All-let_go m hs hs v u (λ k at. at) joins after)
