-- ===== src/Server/Creation/Held.antt =====
-- What the Create functions of Server.Creation have made and not given back: sockets, by object and descriptor, and other
-- descriptors.
use link_layer_discovery.Base.{
  ℕ, ◌+◌, ◌≡◌, ap, List, [], ◌∷◌, Option, none, some, arith, Option-cases, Bool-cases, inl, inr,
  ◌==◌, if◌then◌else◌,
}
use link_layer_discovery.Base.Ints.{pos}
use link_layer_discovery.Base.Key.{nat_key}
use link_layer_discovery.Base.Map.{Map, lookup}
use link_layer_discovery.Base.Store.{put}
use link_layer_discovery.Events.{Handler}
use link_layer_discovery.Server.Creation.{Machine, drop_socket}
use link_layer_discovery.Server.Creation.Sockets.{
  Fits, destroy_handler-Fits, destroy_handler-handlers,
}

abbrev pub occurrences : ℕ → List ℕ → ℕ
occurrences f [] = 0
occurrences f (g ∷ l) = (if f == g then 1 else 0) + occurrences f l

abbrev pub descriptors : Map ℕ ℕ → List ℕ
descriptors [] = []
descriptors ((h, f) ∷ held) = f ∷ descriptors held

-- From `s` to `t` the sockets of `held` and the descriptors of `owned` were made and are still there, the sockets
-- registered with the manager; whatever else was made has been given back, its descriptor closed once.
pub record Holds (m n : ℕ) (owned : List ℕ) (held : Map ℕ ℕ) (s t : Machine) : Type 0 where
  pub fits : Fits m n t.next_object t.world
  pub others : (k : ℕ) → lookup k held ≡ none → t.world.handlers k ≡ s.world.handlers k
  pub joined :
      (k f : ℕ)
      → lookup k held ≡ some f
      → (d : Handler) × (t.world.handlers k ≡ some d)
        × (d.event_manager ≡ some m)
        × (d.socket ≡ pos f)
  pub before : (k f : ℕ) → lookup k held ≡ some f → s.world.handlers k ≡ none
  pub balance :
      (f : ℕ)
      → occurrences f t.opened_descriptors + occurrences f s.closed_descriptors
        ≡ occurrences f s.opened_descriptors
          + occurrences f t.closed_descriptors
          + occurrences f owned
          + occurrences f (descriptors held)

-- The descriptors that were opened in a step and not closed.
abbrev pub Gains : List ℕ → Machine → Machine → Type 0
Gains new t u =
    (f : ℕ)
    → occurrences f u.opened_descriptors + occurrences f t.closed_descriptors
      ≡ occurrences f t.opened_descriptors + occurrences f u.closed_descriptors + occurrences f new

module _ {m n : ℕ} {owned : List ℕ} {held : Map ℕ ℕ} {s t : Machine}
    (h : Holds m n owned held s t) where
  -- A step that keeps nothing.
  pub Holds-same :
      (l : ℕ) (u : Machine)
      → Fits m l u.next_object u.world
      → ((k : ℕ) → u.world.handlers k ≡ t.world.handlers k)
      → Gains [] t u
      → Holds m l owned held s u
  Holds-same l u f same g = record {
    fits = f;
    others = λ k out. ground (arith, out, same k, h.others k out);
    joined = λ k fd at.
        let (d, there, to, its) = h.joined k fd at in (d, ground (arith, there, same k), to, its);
    before = h.before;
    balance = λ fd. omega (arith, h.balance fd, g fd);
  }

  -- A step that opens a descriptor that no socket holds.
  pub Holds-own :
      (f : ℕ) (u : Machine)
      → u.world ≡ t.world
      → u.next_object ≡ t.next_object
      → Gains (f ∷ []) t u
      → Holds m n (f ∷ owned) held s u
  Holds-own f u same next g = record {
    fits = rw (same, next) h.fits;
    others = λ k out. rw same (h.others k out);
    joined = λ k fd at. rw same (h.joined k fd at);
    before = h.before;
    balance = λ fd. omega (arith, h.balance fd, g fd);
  }

  -- The next number is that of no object.
  pub next_free : lookup t.next_object held ≡ none
  next_free = elim (Option-cases (lookup t.next_object held)) [
    | inl e ↦ e
    | inr (f, at) ↦
        let (d, there, to, its) = h.joined t.next_object f at in
        absurd (ground (arith, there, (h.fits.unborn t.next_object (omega arith)).unused))
  ]

  -- A step that makes a socket and registers it.
  pub Holds-push :
      (l f : ℕ) (d : Handler) (u : Machine)
      → Fits m l u.next_object u.world
      → ((k : ℕ) → u.world.handlers k ≡ put t.next_object (some d) t.world.handlers k)
      → d.event_manager ≡ some m
      → d.socket ≡ pos f
      → Gains (f ∷ []) t u
      → Holds m l owned ((t.next_object, f) ∷ held) s u
  unfolding lookup
  Holds-push l f d u fit changed to its g =
      let unused = (h.fits.unborn t.next_object (omega arith)).unused in
      let first = h.others t.next_object next_free in
      record {
        fits = fit;
        others = λ k out. ground (arith, out, changed k, h.others k);
        joined = λ k fd at. elim (Bool-cases (k == t.next_object)) [
          | inl e ↦ (d, ground (arith, e, changed k), to, ground (arith, at, e, its))
          | inr e ↦
              let (c, there, joins, has) = h.joined k fd (ground (arith, e, at)) in
              (c, ground (arith, e, there, changed k), joins, has)
        ];
        before = λ k fd at. ground (arith, at, unused, first, h.before k fd);
        balance = λ fd. omega (arith, h.balance fd, g fd);
      }

-- The last socket that was made is given back.
pub Holds-drop :
    {m n i f : ℕ} {owned : List ℕ} {held : Map ℕ ℕ} {s t : Machine}
    → Holds m n owned ((i, f) ∷ held) s t
    → lookup i held ≡ none
    → Holds m n owned held s (drop_socket i t)
unfolding lookup drop_socket
Holds-drop {m} {n} {i} {f} {owned} {held} {s} {t} h out =
    let (d, there, to, its) = h.joined i f (ground arith) in
    let gone = destroy_handler-handlers i d t.world h.fits.links there in
    let changed = λ (k : ℕ). ap (λ (g : ℕ → Option Handler). g k) gone in
    rw there (record {
      fits = destroy_handler-Fits m n t.next_object i d t.world there h.fits;
      others = λ k o. ground (arith, o, changed k, h.others k, h.before i f);
      joined = λ k fd at.
          let (c, is, joins, has) = h.joined k fd (ground (arith, at, out)) in
          (c, ground (arith, at, out, is, changed k), joins, has);
      before = λ k fd at. h.before k fd (ground (arith, at, out));
      balance = λ fd. rw its (omega (arith, h.balance fd));
    })
