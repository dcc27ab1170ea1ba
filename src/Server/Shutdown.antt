-- ===== src/Server/Shutdown.antt =====
-- The end of `main`, source/src/server_main.cc: every handler is removed from the manager.
use link_layer_discovery.Base.{
  ℕ, ◌≡◌, refl, ap, Bool, true, false, ◌||◌, List, [], ◌∷◌, Option, none, some, arith, All, length,
  ◌==◌, ◌>>=◌, if◌then◌else◌,
}
use link_layer_discovery.Base.Key.{nat_key}
use link_layer_discovery.Base.Store.{put}
use link_layer_discovery.Events.{World, Handler, unlinked, remove, remove_handler}
use link_layer_discovery.Events.Links.{IsLinked, remove_handler-IsLinked}

-- unwrapOrLog of an `expected<void, int>`: `none` is `exit(-1)`.
unfoldable pub unwrap_or_log : Option ℕ × World → Option World
unwrap_or_log (some error, w) = none
unwrap_or_log (none, w) = some w

remove_found : ℕ → Option Handler → World → Option World
remove_found m none w = none
remove_found m (some d) w = unwrap_or_log (remove_handler m d w)

-- The loop over the handlers, which are alive as long as the vector is.
unfoldable pub shut_down : ℕ → List ℕ → World → Option World
unfolding remove_found
shut_down m [] w = some w
shut_down m (h ∷ hs) w = do v ← remove_found m (w.handlers h) w; shut_down m hs v

abbrev pub listed : ℕ → List ℕ → Bool
listed h [] = false
listed h (k ∷ ks) = h == k || listed h ks

abbrev pub IsDistinct : List ℕ → Type 0
IsDistinct [] = Unit
IsDistinct (h ∷ hs) = (listed h hs ≡ false) × IsDistinct hs

-- A handler that is alive and points to a manager.
abbrev pub JoinedTo : ℕ → World → ℕ → Type 0
JoinedTo m w h = (d : Handler) × (w.handlers h ≡ some d) × (d.event_manager ≡ some m)

-- Without its pointers.
abbrev pub let_go : Option Handler → Option Handler
let_go none = none
let_go (some d) = some (unlinked d)

remove_joined :
    (m h : ℕ) (d : Handler) (w : World)
    → IsLinked w
    → w.handlers h ≡ some d
    → d.event_manager ≡ some m
    → ((n : ℕ) → w.answer n ≡ none)
    → ((remove_handler m d w).0 ≡ none)
      × ((remove_handler m d w).1.handlers ≡ put h (some (unlinked d)) w.handlers)
      × ((remove_handler m d w).1.answer ≡ w.answer)
unfolding remove_handler remove
remove_joined m h d w l there joined good =
    let at = l.registered h m d there joined in
    let hit : (m == m) ≡ true = ground arith in
    rw (joined, hit, at, there, good (length w.calls)) (refl, refl, refl)

unwrap_good : (result : Option ℕ × World) → result.0 ≡ none → unwrap_or_log result ≡ some result.1
unfolding unwrap_or_log
unwrap_good (none, w) e = refl
unwrap_good (some error, w) e = absurd (ground (arith, e))

-- The other handlers are as they were.
joined_rest :
    (m h : ℕ) (d : Handler) (hs : List ℕ) (w v : World)
    → v.handlers ≡ put h (some d) w.handlers
    → listed h hs ≡ false
    → All (JoinedTo m w) hs
    → All (JoinedTo m v) hs
joined_rest m h d [] w v same out all = tt
joined_rest m h d (k ∷ ks) w v same out all =
    let (c, there, joined) = all.0 in
    (
      (c, rw same (ground (arith, out, there)), joined),
      joined_rest m h d ks w v same (ground (arith, out)) all.1,
    )

-- Where each handler points to the manager, no handler stands twice in the list, and epoll_ctl refuses nothing, the loop
-- comes to its end without an exit: the handlers of the list have no manager any more, the others are as
-- they were, and the links hold.
pub shut_down_ends :
    (m : ℕ) (hs : List ℕ) (w : World)
    → IsLinked w
    → IsDistinct hs
    → All (JoinedTo m w) hs
    → ((n : ℕ) → w.answer n ≡ none)
    → (v : World) × (shut_down m hs w ≡ some v)
      × IsLinked v
      × ((k : ℕ) → v.handlers k ≡ (if listed k hs then let_go (w.handlers k) else w.handlers k))
unfolding shut_down
shut_down_ends m [] w l distinct all good = (w, refl, l, λ k. refl)
shut_down_ends m (h ∷ hs) w l distinct all good =
    let (d, there, joined) = all.0 in
    let r = remove_joined m h d w l there joined good in
    let u = (remove_handler m d w).1 in
    let good' : (n : ℕ) → u.answer n ≡ none = λ n. rw r.2 (good n) in
    let rest_joined = joined_rest m h (unlinked d) hs w u r.1 distinct.0 all.1 in
    let (v, ran, linked, after) =
      shut_down_ends m hs u (remove_handler-IsLinked m d w l) distinct.1 rest_joined good' in
    let first = unwrap_good (remove_handler m d w) r.0 in
    (
      v,
      rw (there, first) ran,
      linked,
      λ k. ground (arith, after k, there, distinct.0, ap (λ f. f k) r.1),
    )
