-- ===== src/Client/Sockets/Swept.antt =====
-- ClientRepository::Call of source/src/client.cc: which sockets it keeps.
use link_layer_discovery.Base.{
  ℕ, zero, suc, ◌≤◌, ◌<◌, ◌≡◌, ◌≢◌, refl, ap, ◌∙◌, true, false, List, [], ◌∷◌, ◌++◌, append-nil,
  append_assoc, none, some, arith, length, take, drop, get_elem?, take_of_length-le, Option-cases,
  Bool-cases, inl, inr, if◌then◌else◌,
}
use link_layer_discovery.Events.{World}
use link_layer_discovery.Events.Links.{IsLinked, destroy_handler-IsLinked}
use link_layer_discovery.Client.Sockets.{
  ClientSenderSocket, ClientRepository, erase_at, release, sweep_at, sweep, call_repository,
}

-- The sockets that have received no EOF, in their order.
abbrev pub still_open : List ClientSenderSocket → List ClientSenderSocket
still_open [] = []
still_open (s ∷ ss) = if s.eof_received then still_open ss else s ∷ still_open ss

still_open-append :
    (xs ys : List ClientSenderSocket) → still_open (xs ++ ys) ≡ still_open xs ++ still_open ys
still_open-append [] ys = refl
still_open-append (x ∷ xs) ys = ground (arith, still_open-append xs ys)

module _ {ℓ} {A : Type ℓ} where
  take-get_elem :
      (i : ℕ) (xs : List A) (x : A)
      → get_elem? xs i ≡ some x
      → take (suc i) xs ≡ take i xs ++ (x ∷ [])
  take-get_elem i [] x h = cc
  take-get_elem zero (y ∷ ys) x h = cc
  take-get_elem (suc i) (y ∷ ys) x h = ap (◌∷◌ y) (take-get_elem i ys x h)

  drop-get_elem :
      (i : ℕ) (xs : List A) (x : A) → get_elem? xs i ≡ some x → drop i xs ≡ x ∷ drop (suc i) xs
  drop-get_elem i [] x h = cc
  drop-get_elem zero (y ∷ ys) x h = cc
  drop-get_elem (suc i) (y ∷ ys) x h = drop-get_elem i ys x h

  get_elem_none : (i : ℕ) (xs : List A) → i < length xs → get_elem? xs i ≢ none
  get_elem_none i [] h = absurd (omega arith)
  get_elem_none zero (y ∷ ys) h = λ e. cc
  get_elem_none (suc i) (y ∷ ys) h = get_elem_none i ys (omega arith)

  drop_all : (xs : List A) → drop (length xs) xs ≡ []
  drop_all [] = refl
  drop_all (x ∷ xs) = drop_all xs

  take-erase_at : (i : ℕ) (xs : List A) → take i (erase_at i xs) ≡ take i xs
  unfolding erase_at
  take-erase_at zero xs = refl
  take-erase_at (suc i) [] = refl
  take-erase_at (suc i) (x ∷ xs) = ap (◌∷◌ x) (take-erase_at i xs)

  drop-erase_at : (i : ℕ) (xs : List A) → drop i (erase_at i xs) ≡ drop (suc i) xs
  unfolding erase_at
  drop-erase_at zero [] = refl
  drop-erase_at zero (x ∷ xs) = refl
  drop-erase_at (suc i) [] = refl
  drop-erase_at (suc i) (x ∷ xs) = drop-erase_at i xs

  length-erase_at : (i : ℕ) (xs : List A) → i < length xs → suc (length (erase_at i xs)) ≡ length xs
  unfolding erase_at
  length-erase_at i [] h = absurd (omega arith)
  length-erase_at zero (x ∷ xs) h = refl
  length-erase_at (suc i) (x ∷ xs) h = ap suc (length-erase_at i xs (omega arith))

abbrev sockets_of : ClientRepository → List ClientSenderSocket
sockets_of c = c.transport_sockets

-- Below an index the loop keeps what is still open, and from there on it keeps all.
abbrev kept_below : ℕ → List ClientSenderSocket → List ClientSenderSocket
kept_below i ss = still_open (take i ss) ++ drop i ss

kept_below_open :
    (i : ℕ) (ss : List ClientSenderSocket) (s : ClientSenderSocket)
    → get_elem? ss i ≡ some s
    → s.eof_received ≡ false
    → kept_below i ss ≡ kept_below (suc i) ss
kept_below_open i ss s e running =
    rw (take-get_elem i ss s e, drop-get_elem i ss s e, still_open-append)
      (simp (running, append_assoc) refl)

kept_below_closed :
    (i : ℕ) (ss : List ClientSenderSocket) (s : ClientSenderSocket)
    → get_elem? ss i ≡ some s
    → s.eof_received ≡ true
    → kept_below i (erase_at i ss) ≡ kept_below (suc i) ss
kept_below_closed i ss s e closed =
    rw (take-erase_at i ss, drop-erase_at i ss, take-get_elem i ss s e, still_open-append)
      (simp (closed, append-nil) refl)

sweep_sockets :
    (i : ℕ) (c : ClientRepository)
    → i ≤ length (sockets_of c)
    → sockets_of (sweep i c) ≡ kept_below i (sockets_of c)
unfolding sweep
sweep_sockets zero c h = refl
sweep_sockets (suc i) c h = elim (Option-cases (get_elem? (sockets_of c) i)) [
  | inl e ↦ absurd (get_elem_none i (sockets_of c) (omega arith) e)
  | inr (s, e) ↦ elim (Bool-cases s.eof_received) [
    | inr running ↦
        let rest = sweep_sockets i c (omega arith) in
        rw (e, running) (rest ∙ kept_below_open i (sockets_of c) s e running)
    | inl closed ↦
        let c' = record c {
          transport_sockets = erase_at i (sockets_of c);
          world = release s.handler c.world;
        } in
        let shorter = length-erase_at i (sockets_of c) (omega arith) in
        let rest = sweep_sockets i c' (omega arith) in
        rw (e, closed) (rest ∙ kept_below_closed i (sockets_of c) s e closed)
  ]
]

release-IsLinked : (h : ℕ) (w : World) → IsLinked w → IsLinked (release h w)
unfolding release
release-IsLinked h w l = elim (Option-cases (w.handlers h)) [
  | inl e ↦ rw e l
  | inr (d, e) ↦ rw e (destroy_handler-IsLinked h d w l)
]

sweep-IsLinked : (i : ℕ) (c : ClientRepository) → IsLinked c.world → IsLinked (sweep i c).world
unfolding sweep sweep_at
sweep-IsLinked zero c l = l
sweep-IsLinked (suc i) c l = elim (Option-cases (get_elem? (sockets_of c) i)) [
  | inl e ↦ rw (sweep, e) (sweep-IsLinked i c l)
  | inr (s, e) ↦ elim (Bool-cases s.eof_received) [
    | inr running ↦ rw (sweep, e, sweep_at, running) (sweep-IsLinked i c l)
    | inl closed ↦
        rw (sweep, e, sweep_at, closed)
          (sweep-IsLinked i
            (record c {
              transport_sockets = erase_at i (sockets_of c);
              world = release s.handler c.world;
            })
            (release-IsLinked s.handler c.world l))
  ]
]

-- A wake-up of the repository drops exactly the sockets that have received EOF, keeps the order of the others, and
-- keeps the links between managers and handlers.
pub call_repository_sockets :
    (c : ClientRepository)
    → IsLinked c.world
    → ((call_repository c).transport_sockets ≡ still_open c.transport_sockets)
      × IsLinked (call_repository c).world
call_repository_sockets c l =
    let ss = sockets_of c in
    let all : take (length ss) ss ≡ ss = take_of_length-le (length ss) ss (omega arith) in
    let none_left : drop (length ss) ss ≡ [] = drop_all ss in
    (
      rw (sweep_sockets (length ss) c (omega arith), all, none_left) (append-nil (still_open ss)),
      sweep-IsLinked (length ss) c l,
    )
