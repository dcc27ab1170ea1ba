-- ===== src/Server/Main.antt =====
-- The loop of `main` and InterruptHandler of source/src/server_main.cc. A round is one ProcessEvents: the
-- handlers that it calls, in order.
use link_layer_discovery.Base.{
  ℕ, ◌≡◌, refl, Bool, true, false, ◌||◌, List, [], ◌∷◌, ◌++◌, Option, none, some, ◌>>=◌,
  Option-cases, Bool-cases, inl, inr, if◌then◌else◌,
}
use link_layer_discovery.Base.Key.{bytes_beq}
use link_layer_discovery.Base.Ints.{ℤ, pos, negsuc}
use link_layer_discovery.Server.{Server, Event, handle, run}

-- What wakes the program: a handler of the server, or a signal, with what `read` of the signalfd returns.
pub data Wake : Type 0 where
  event : Event → Wake
  signal : ℤ → Wake

-- The server, and `interrupt_flag`.
pub record Program : Type 0 where
  pub server : Server
  pub interrupt_flag : Bool

-- InterruptHandler::Call: a failed read leaves the flag.
abbrev pub call_interrupt : ℤ → Bool → Bool
call_interrupt (negsuc n) flag = flag
call_interrupt (pos n) flag = true

with_server : Program → Server → Program
with_server p s = record p { server = s }

wake : Wake → Program → Option Program
wake (event e) p = do s ← handle e p.server; some (with_server p s)
wake (signal result) p = some (record p { interrupt_flag = call_interrupt result p.interrupt_flag })

-- The calls of one round.
unfoldable pub process_round : List Wake → Program → Option Program
unfolding wake with_server
process_round [] p = some p
process_round (e ∷ l) p = do q ← wake e p; process_round l q

-- `while (!interrupt_flag) manager.ProcessEvents()`, over the rounds that there are.
unfoldable pub main_loop : List (List Wake) → Program → Option Program
main_loop [] p = some p
main_loop (r ∷ rounds) p =
    if p.interrupt_flag then some p else do q ← process_round r p; main_loop rounds q

-- Whether one of the arguments is "-v".
abbrev verbose_flag : List ℕ
verbose_flag = 45 ∷ 118 ∷ []

unfoldable pub is_verbose : List (List ℕ) → Bool
is_verbose [] = false
is_verbose (a ∷ arguments) = bytes_beq a verbose_flag || is_verbose arguments

-- The server's events in a round, and whether a signal is read in it.
abbrev pub events_in : List Wake → List Event
events_in [] = []
events_in (event e ∷ l) = e ∷ events_in l
events_in (signal result ∷ l) = events_in l

abbrev pub interrupts : List Wake → Bool
interrupts [] = false
interrupts (event e ∷ l) = interrupts l
interrupts (signal result ∷ l) = call_interrupt result (interrupts l)

-- The events up to the end of the first round with a signal.
abbrev pub until_interrupt : Bool → List (List Wake) → List Event
until_interrupt true rounds = []
until_interrupt false [] = []
until_interrupt false (r ∷ rounds) = events_in r ++ until_interrupt (interrupts r) rounds

abbrev pub server_of : Option Program → Option Server
server_of none = none
server_of (some p) = some p.server

run-append : (xs ys : List Event) (s : Server) → run (xs ++ ys) s ≡ (run xs s >>= run ys)
unfolding run
run-append [] ys s = refl
run-append (e ∷ xs) ys s = elim (Option-cases (handle e s)) [
  | inl stuck ↦ rw stuck refl
  | inr (s', next) ↦ rw next (run-append xs ys s')
]

or-false : (b : Bool) → b || false ≡ b
or-false true = refl
or-false false = refl

or-true : (b : Bool) → b || true ≡ true
or-true true = refl
or-true false = refl

-- A round runs its events, and then the flag is what it was or what the signals make it.
process_round_lem :
    (l : List Wake) (p : Program)
    → process_round l p ≡ (
        run (events_in l) p.server >>= λ s.
        some (record { server = s; interrupt_flag = p.interrupt_flag || interrupts l }))
unfolding process_round run
process_round_lem [] p = rw (or-false p.interrupt_flag) refl
process_round_lem (event e ∷ l) p = elim (Option-cases (handle e p.server)) [
  | inl stuck ↦ rw stuck refl
  | inr (s', next) ↦ rw next (process_round_lem l (record p { server = s' }))
]
process_round_lem (signal (negsuc n) ∷ l) p = process_round_lem l p
process_round_lem (signal (pos n) ∷ l) p =
    rw (or-true p.interrupt_flag) (process_round_lem l (record p { interrupt_flag = true }))

main_loop_interrupted :
    (rounds : List (List Wake)) (p : Program)
    → p.interrupt_flag ≡ true
    → main_loop rounds p ≡ some p
unfolding main_loop
main_loop_interrupted [] p e = refl
main_loop_interrupted (r ∷ rounds) p e = rw e refl

-- `main` where the loop begins.
abbrev pub started : Server → Program
started s = record { server = s; interrupt_flag = false }

-- The loop does to the server what the events do up to the end of the first round in which a signal is read, and
-- no event of a later round is handled.
pub main_loop-run :
    (rounds : List (List Wake)) (s : Server)
    → server_of (main_loop rounds (started s)) ≡ run (until_interrupt false rounds) s
unfolding main_loop
main_loop-run [] s = unfold run in refl
main_loop-run (r ∷ rounds) s = elim (Option-cases (run (events_in r) s)) [
  | inl stuck ↦ rw (process_round_lem r (started s), stuck, run-append, stuck) refl
  | inr (s', next) ↦ elim (Bool-cases (interrupts r)) [
    | inl ended ↦
        let q : Program = record { server = s'; interrupt_flag = true } in
        rw
          (
            process_round_lem r (started s),
            next,
            run-append,
            next,
            ended,
            main_loop_interrupted rounds q refl,
          )
          (unfold run in refl)
    | inr going ↦
        let rest = main_loop-run rounds s' in
        rw (process_round_lem r (started s), next, run-append, next, going) rest
  ]
]
