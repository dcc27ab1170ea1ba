-- ===== src/Netlink/Reader/Wiring/Bound.antt =====
-- No socket calls a reader that is gone, source/include/device_reader.hh.
use link_layer_discovery.Base.{
  ℕ, ◌≡◌, ◌≢◌, ◌↔◌, Bool, true, false, Option, none, some, refl, arith, Bool-cases, inl, inr, ◌==◌,
  if◌then◌else◌,
}
use link_layer_discovery.Netlink.Reader.Wiring.{
  ReaderObject, Wires, bind_reader_socket_callback, clear_callback, empty, holding, construct,
  move_construct, move_assign_device, move_assign_ip, destroy,
}

-- The socket of a reader calls that reader, and a callback goes to a reader that holds the socket.
pub record IsBound (w : Wires) : Type 0 where
  pub bound :
      (i s : ℕ) (r : ReaderObject)
      → w.readers i ≡ some r
      → r.socket ≡ some s
      → w.callbacks s ≡ some i
  pub alive :
      (i s : ℕ)
      → w.callbacks s ≡ some i
      → (r : ReaderObject) × (w.readers i ≡ some r) × (r.socket ≡ some s)

abbrev holds : Option ℕ → ℕ → Bool
holds none s = false
holds (some t) s = s == t

holds_iff : (o : Option ℕ) (s : ℕ) → (holds o s ≡ true) ↔ (o ≡ some s)
holds_iff none s = ground arith
holds_iff (some t) s = ground arith

bind_lem :
    (i s : ℕ) (o : Option ℕ) (callbacks : ℕ → Option ℕ)
    → bind_reader_socket_callback i o callbacks s ≡ (if holds o s then some i else callbacks s)
unfolding bind_reader_socket_callback
bind_lem i s none callbacks = refl
bind_lem i s (some t) callbacks = refl

clear_lem :
    (s : ℕ) (o : Option ℕ) (callbacks : ℕ → Option ℕ)
    → clear_callback o callbacks s ≡ (if holds o s then none else callbacks s)
unfolding clear_callback
clear_lem s none callbacks = refl
clear_lem s (some t) callbacks = refl

pub destroy-IsBound :
    (i : ℕ) (r : ReaderObject) (w : Wires)
    → w.readers i ≡ some r
    → IsBound w
    → IsBound (destroy i r w)
unfolding destroy
destroy-IsBound i r w there b = record {
  bound = λ k s q at holds. ground (
    arith,
    there,
    at,
    holds,
    clear_lem s r.socket w.callbacks,
    holds_iff r.socket s,
    b.bound k s q,
    b.bound i s r,
  );
  alive = λ k s calls.
      let was : w.callbacks s ≡ some k = ground (arith, calls, clear_lem s r.socket w.callbacks) in
      let (q, at, has) = b.alive k s was in
      (
        q,
        ground
            (arith, there, at, has, calls, clear_lem s r.socket w.callbacks, holds_iff r.socket s),
        has,
      );
}

pub construct-IsBound :
    (i s : ℕ) (w : Wires)
    → w.readers i ≡ none
    → w.callbacks s ≡ none
    → IsBound w
    → IsBound (construct i s w)
unfolding construct
construct-IsBound i s w absent fresh b = record {
  bound = λ k t q at has. ground (
    arith,
    fresh,
    absent,
    at,
    has,
    bind_lem i t (some s) w.callbacks,
    b.bound k t q,
    b.bound k s q,
  );
  alive = λ k t calls. elim (Bool-cases (t == s)) [
    | inl e ↦
        (holding s, ground (arith, e, calls, bind_lem i t (some s) w.callbacks), ground (arith, e))
    | inr e ↦
        let was : w.callbacks t ≡ some k =
          ground (arith, e, calls, bind_lem i t (some s) w.callbacks) in
        let (q, at, has) = b.alive k t was in (q, ground (arith, at, absent), has)
  ];
}

pub move_construct-IsBound :
    (i j : ℕ) (r : ReaderObject) (w : Wires)
    → w.readers i ≡ none
    → w.readers j ≡ some r
    → IsBound w
    → IsBound (move_construct i j r w)
unfolding move_construct
move_construct-IsBound i j r w absent there b = record {
  bound = λ k s q at holds. ground (
    arith,
    there,
    absent,
    at,
    holds,
    bind_lem i s r.socket w.callbacks,
    holds_iff r.socket s,
    b.bound k s q,
    b.bound j s r,
  );
  alive = λ k s calls. elim (Bool-cases (holds r.socket s)) [
    | inl e ↦ (
      r,
      ground (arith, e, calls, there, absent, bind_lem i s r.socket w.callbacks),
      (holds_iff r.socket s).0 e,
    )
    | inr e ↦
        let was : w.callbacks s ≡ some k =
          ground (arith, e, calls, bind_lem i s r.socket w.callbacks) in
        let (q, at, has) = b.alive k s was in
        (q, ground (arith, at, has, e, absent, there, holds_iff r.socket s), has)
  ];
}

pub move_assign_device-IsBound :
    (i j : ℕ) (old r : ReaderObject) (w : Wires)
    → i ≢ j
    → w.readers i ≡ some old
    → w.readers j ≡ some r
    → IsBound w
    → IsBound (move_assign_device i old j r w)
unfolding move_assign_device
move_assign_device-IsBound i j old r w other here there b =
    let cleared = clear_callback old.socket w.callbacks in
    record {
      bound = λ k s q at has. ground (
        arith,
        other,
        here,
        there,
        at,
        has,
        bind_lem i s r.socket cleared,
        clear_lem s old.socket w.callbacks,
        holds_iff r.socket s,
        holds_iff old.socket s,
        b.bound k s q,
        b.bound j s r,
        b.bound i s old,
      );
      alive = λ k s calls. elim (Bool-cases (holds r.socket s)) [
        | inl e ↦ (
          r,
          ground (arith, e, calls, other, here, there, bind_lem i s r.socket cleared),
          (holds_iff r.socket s).0 e,
        )
        | inr e ↦
            let was : w.callbacks s ≡ some k = ground (
              arith,
              e,
              calls,
              bind_lem i s r.socket cleared,
              clear_lem s old.socket w.callbacks,
            ) in
            let still : holds old.socket s ≡ false = ground (
              arith,
              e,
              calls,
              bind_lem i s r.socket cleared,
              clear_lem s old.socket w.callbacks,
            ) in
            let (q, at, has) = b.alive k s was in
            (
              q,
              ground (
                arith,
                at,
                has,
                e,
                still,
                here,
                there,
                holds_iff r.socket s,
                holds_iff old.socket s,
              ),
              has,
            )
      ];
    }

-- After a move assignment of an address reader that holds a socket, the socket still calls the reader that was moved
-- from, which no longer holds it.
pub move_assign_ip-callbacks :
    (i j s : ℕ) (old r : ReaderObject) (w : Wires)
    → i ≢ j
    → w.readers i ≡ some old
    → w.readers j ≡ some r
    → r.socket ≡ some s
    → IsBound w
    → ((move_assign_ip i old j r w).callbacks s ≡ some j)
      × ((move_assign_ip i old j r w).readers j ≡ some empty)
      × ((move_assign_ip i old j r w).readers i ≡ some r)
unfolding move_assign_ip
move_assign_ip-callbacks i j s old r w other here there has b = (
  ground (
    arith,
    other,
    clear_lem s old.socket w.callbacks,
    holds_iff old.socket s,
    b.bound i s old here,
    b.bound j s r there has,
  ),
  ground arith,
  ground (arith, other),
)
