-- ===== src/Server/Program.antt =====
-- The start of `main` and initializeHandlers, source/src/server_main.cc, up to the loop, with the objects and
-- descriptors of Server.Creation. A result `none` is `exit(-1)`.
pub mod Equipped
pub mod Boot
pub mod Life
use link_layer_discovery.Base.{ℕ, suc, Bool, List, [], ◌∷◌, ◌++◌, Option, none, some, ◌>>=◌}
use link_layer_discovery.Base.Ints.{ℤ}
use link_layer_discovery.Opening as Opening
use Opening.{Created, failed, created, opened, create_plain, create_clock, create_interrupt_handler}
use link_layer_discovery.Client.Listen as Listen
use Listen.{Paths}
use link_layer_discovery.Descriptor.Deleting.{Deleting, Calls}
use link_layer_discovery.Events.{World, create_handler}
use link_layer_discovery.Server.Startup.{start_up}
use link_layer_discovery.Server.Creation.{
  Machine, epollin, with_world, LldpParts, create_lldp_repository,
}

-- What the kernel answers to the Create functions that `main` calls.
pub record Answers : Type 0 where
  pub epoll : ℤ
  pub monitor : ℤ
  pub notify : ℤ
  pub listen : Listen.Answers
  pub clock : Opening.Answers
  pub blocked : Bool
  pub signal : ℤ

-- The objects, and the files that were removed.
pub record Program : Type 0 where
  pub machine : Machine
  pub unlinked : List (List ℕ)

-- The handler that goes with a descriptor.
abbrev pub add_object : ℤ → Machine → Machine
add_object fd s = record s {
  world = create_handler s.next_object fd epollin s.world;
  next_object = suc s.next_object;
}

abbrev note_opened : List ℕ → Machine → Machine
note_opened new s = record s { opened_descriptors = new ++ s.opened_descriptors }

-- unwrapOrLog of what a Create function returns.
unfoldable pub unwrap_created : Program → Created × List ℕ → Option (ℕ × Program)
unwrap_created p (failed, closed) = none
unwrap_created p (created fd, closed) = some (
  p.machine.next_object,
  record p {
    machine =
        add_object fd (record (note_opened (opened fd) p.machine) { closed_descriptors = closed });
  },
)

-- The same for ClientListenSocket::Create: the handler goes with the listener's descriptor.
unfoldable pub unwrap_listener : Program → Listen.Created × Calls → Option (ℕ × Program)
unwrap_listener p (Listen.failed, c) = none
unwrap_listener p (Listen.created lock d, c) = some (
  p.machine.next_object,
  record {
    machine = add_object d.fd (record (note_opened (opened d.fd ++ opened lock.fd) p.machine) {
      closed_descriptors = c.closed;
    });
    unlinked = c.unlinked;
  },
)

abbrev closed_of : Program → List ℕ
closed_of p = p.machine.closed_descriptors

-- initializeHandlers, with the loop of Server.Startup at its end: the vector of handlers, and the program.
unfoldable pub initialize_handlers : ℕ → Answers → Paths → Program → Option (List ℕ × Program)
initialize_handlers m a paths p = do
  (monitor, p1) ← unwrap_created p (create_plain a.monitor (closed_of p))
  (clients, p2) ← unwrap_created p1 (create_plain a.notify (closed_of p1))
  (listener, p3) ←
      unwrap_listener p2
        (Listen.create a.listen paths (record { closed = closed_of p2; unlinked = p2.unlinked }))
  (clock, p4) ← unwrap_created p3 (create_clock a.clock (closed_of p3))
  (interrupt, p5) ← unwrap_created p4 (create_interrupt_handler a.blocked a.signal (closed_of p4))
  w ← start_up m (clock ∷ monitor ∷ clients ∷ listener ∷ interrupt ∷ []) p5.machine.world
  some (
    clock ∷ monitor ∷ clients ∷ listener ∷ interrupt ∷ [],
    record p5 { machine = with_world w p5.machine },
  )

-- `main` where the loop begins.
pub record Running : Type 0 where
  pub lldp : LldpParts
  pub handlers : List ℕ
  pub program : Program

unwrap_lldp : Option LldpParts × Machine → Option (LldpParts × Machine)
unwrap_lldp (none, s) = none
unwrap_lldp (some l, s) = some (l, s)

-- unwrapOrLog of EventManager::Create; the manager is `m`.
open_epoll : Machine → Created × List ℕ → Option Machine
open_epoll s (failed, closed) = none
open_epoll s (created fd, closed) =
    some (record (note_opened (opened fd) s) { closed_descriptors = closed })

-- `main`, from the manager to the loop.
unfoldable pub start_program : ℕ → Answers → Paths → Machine → Option Running
unfolding open_epoll unwrap_lldp
start_program m a paths s = do
  t ← open_epoll s (create_plain a.epoll s.closed_descriptors)
  (l, u) ← unwrap_lldp (create_lldp_repository m t)
  (hs, p) ← initialize_handlers m a paths (record { machine = u; unlinked = [] })
  some (record { lldp = l; handlers = hs; program = p })
