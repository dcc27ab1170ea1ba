-- ===== src/Server/Creation/Joined.antt =====
-- What is left after a Create function of source/src/device_reader.cc or source/src/ip_reader.cc, on every path.
use link_layer_discovery.Base.{
  ℕ, suc, ◌≡◌, refl, ap, List, ◌∷◌, Option, none, some, arith, length, ◌⊎◌, Option-cases,
  Bool-cases, inl, inr,
}
use link_layer_discovery.Base.Ints.{ℤ, pos, negsuc}
use link_layer_discovery.Base.Key.{nat_key}
use link_layer_discovery.Base.Map.{Map, lookup}
use link_layer_discovery.Base.Store.{put}
use link_layer_discovery.Descriptor.{is_valid}
use link_layer_discovery.Opening.{create_netlink_socket}
use link_layer_discovery.Events.{World, Handler, Added, added, add, create_handler, destroy_handler}
use link_layer_discovery.Events
use link_layer_discovery.Events.Unjoined.{add_unjoined, add_unjoined_refused}
use link_layer_discovery.Server.Creation.{
  Machine, epollin, answer_of, with_world, create_socket, drop_socket, keep_added, create_joined,
}
use link_layer_discovery.Server.Creation.Sockets.{
  Fits, create_handler-Fits, add-Fits, add_refused-Fits, destroy_handler-handlers,
  destroy_handler-Fits,
}
use link_layer_discovery.Server.Creation.Held.{Holds, Holds-same, Holds-push, next_free}

pub ℤ-cases : (fd : ℤ) → ((f : ℕ) × (fd ≡ pos f)) ⊎ ((n : ℕ) × (fd ≡ negsuc n))
ℤ-cases (pos f) = inl (f, refl)
ℤ-cases (negsuc n) = inr (n, refl)

pub keep_added_good :
    (h id : ℕ) (s : Machine) (result : Added × World)
    → result.0 ≡ added id
    → keep_added h s result ≡ (some h, with_world result.1 s)
unfolding keep_added
keep_added_good h id s (added i, w) e = refl
keep_added_good h id s (Events.failed error, w) e = absurd (ground (arith, e))

keep_added_bad :
    (h error : ℕ) (s : Machine) (result : Added × World)
    → result.0 ≡ Events.failed error
    → keep_added h s result ≡ (none, drop_socket h (with_world result.1 s))
unfolding keep_added
keep_added_bad h error s (added i, w) e = absurd (ground (arith, e))
keep_added_bad h error s (Events.failed error', w) e = refl

-- What a Create function that makes one registered socket leaves.
abbrev pub Made :
    (m n : ℕ) (owned : List ℕ) (held : Map ℕ ℕ) (s : Machine) → Option ℕ × Machine → Type 0
Made m n owned held s (none, u) = Holds m n owned held s u
Made m n owned held s (some i, u) =
    (f : ℕ) × Holds m n owned ((i, f) ∷ held) s u × (lookup i held ≡ none)

-- One more handler fits than is needed.
pub weaken : {m n next : ℕ} {w : World} → Fits m (suc n) next w → Fits m n next w
weaken f = record {
  links = f.links;
  room = record {
    above = f.room.above;
    positive = f.room.positive;
    bounded = let b = f.room.bounded in omega arith;
  };
  ascending = f.ascending;
  unborn = f.unborn;
}

abbrev pub new_socket : ℕ → Handler
new_socket f = record { event_manager = none; handle = 0; socket = pos f; events = epollin }

abbrev pub with_socket : ℕ → Machine → World
with_socket f t = create_handler t.next_object (pos f) epollin t.world

pub create_joined-Made :
    (m n : ℕ) (owned : List ℕ) (held : Map ℕ ℕ) (s t : Machine)
    → Holds m (suc n) owned held s t
    → Made m n owned held s (create_joined m t)
unfolding create_joined create_socket create_netlink_socket is_valid drop_socket
create_joined-Made m n owned held s t h = elim (ℤ-cases (answer_of t).fd) [
  | inr (k, e) ↦ rw e (Holds-same h n _ (weaken h.fits) (λ k. refl) (λ fd. omega arith))
  | inl (f, e) ↦
      let i = t.next_object in
      let unused = (h.fits.unborn i (omega arith)).unused in
      let w = with_socket f t in
      let made = create_handler-Fits m (suc n) i epollin (pos f) t.world h.fits in
      let there : w.handlers i ≡ some (new_socket f) = unfold create_handler in ground arith in
      let free = made.room.above (w.managers m).event_id_counter (omega arith) in
      elim (Bool-cases (answer_of t).set_up) [
        | inr bad ↦ rw (e, bad) (Holds-same h n _ (weaken h.fits) (λ k. refl) (λ fd. omega arith))
        | inl good ↦ elim (Option-cases (w.answer (length w.calls))) [
          | inr (error, refused) ↦
              let r = add_unjoined_refused m i error (new_socket f) w refl refused free in
              let v = (add m i (new_socket f) w).1 in
              let fits = add_refused-Fits m i (new_socket f) w there error refl refused made in
              let still : v.handlers i ≡ some (new_socket f) = rw r.1 there in
              let gone = destroy_handler-handlers i (new_socket f) v fits.links still in
              let changed = λ (k : ℕ). ap (λ (g : ℕ → Option Handler). g k) gone in
              let same : (k : ℕ)
                  → (destroy_handler i (new_socket f) v).handlers k ≡ t.world.handlers k =
                λ k.
                  unfold create_handler in ground (arith, changed k, unused, ap (λ g. g k) r.1) in
              rw (e, good, there, keep_added_bad i error _ (add m i (new_socket f) w) r.0, still)
                (Holds-same h n _ (destroy_handler-Fits m n (suc i) i (new_socket f) v still fits)
                  same (λ fd. omega arith))
          | inl taken ↦
              let r = add_unjoined m i (new_socket f) w refl taken free in
              let fits = add-Fits m i (new_socket f) w there refl taken made in
              let id = (w.managers m).event_id_counter in
              let joined = record (new_socket f) { event_manager = some m; handle = id } in
              let changed : (k : ℕ)
                  → (add m i (new_socket f) w).1.handlers k
                    ≡ put i (some joined) t.world.handlers k =
                λ k. unfold create_handler in ground (arith, ap (λ g. g k) r.1) in
              rw (e, good, there, keep_added_good i id _ (add m i (new_socket f) w) r.0)
                (
                  f,
                  Holds-push h n f joined _ fits changed refl refl (λ fd. omega arith),
                  next_free h,
                )
        ]
      ]
]
