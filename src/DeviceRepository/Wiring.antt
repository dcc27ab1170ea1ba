-- ===== src/DeviceRepository/Wiring.antt =====
-- DeviceRepository as an object, source/include/device_repository.hh: where the callbacks of its readers and of its
-- monitor go, and its moves. Repositories, readers and sockets are numbered; a null pointer is `none`.
use link_layer_discovery.Base.{ℕ, ◌≡◌, ◌≢◌, Bool, false, [], Option, none, some, arith}
use link_layer_discovery.Base.Ints.{ℤ, negsuc}
use link_layer_discovery.Base.Map.{Map}
use link_layer_discovery.Base.Store.{put}
use link_layer_discovery.Device.{DeviceData}

-- The fields of a repository; the sync callback is the number of the LldpRepository that it goes to.
pub record RepositoryObject : Type 0 where
  pub sync_timeout : ℤ
  pub monitor : Option ℕ
  pub device_reader : Option ℕ
  pub ip_reader : Option ℕ
  pub devices : Map ℕ DeviceData
  pub synchronization_callback : Option ℕ
  pub verbose : Bool

-- The callbacks of a reader: the update, the end of a dump, and the error.
pub record Callbacks : Type 0 where
  pub on_update : Option ℕ
  pub on_end_of_dump : Option ℕ
  pub on_dump_errored : Option ℕ

pub record Wires : Type 0 where
  pub repositories : ℕ → Option RepositoryObject
  pub device_readers : ℕ → Callbacks
  pub ip_readers : ℕ → Callbacks
  pub monitors : ℕ → Option ℕ

-- The setters of DeviceReader and IpReader, with a repository, and what they clear, with `none`.
abbrev pub set_update_callback : Option ℕ → Callbacks → Callbacks
set_update_callback target c = record c { on_update = target }

abbrev pub set_end_of_dump_callback : Option ℕ → Callbacks → Callbacks
set_end_of_dump_callback target c = record c { on_end_of_dump = target }

abbrev pub set_dump_errored_callback : Option ℕ → Callbacks → Callbacks
set_dump_errored_callback target c = record c { on_dump_errored = target }

-- All three of a reader.
abbrev pub set_all : Option ℕ → Callbacks → Callbacks
set_all target c =
    set_dump_errored_callback target
      (set_end_of_dump_callback target (set_update_callback target c))

-- What they come to.
abbrev pub all_to : Option ℕ → Callbacks
all_to target = record { on_update = target; on_end_of_dump = target; on_dump_errored = target }

-- `if (pointer != nullptr)`, around a change of the object.
unfoldable pub set_if {ℓ} : {A : Type ℓ} → Option ℕ → A → (ℕ → A) → ℕ → A
set_if none value objects = objects
set_if (some p) value objects = put p value objects

-- The same, around the setters of a reader.
unfoldable pub change_if : Option ℕ → (Callbacks → Callbacks) → (ℕ → Callbacks) → ℕ → Callbacks
change_if none change readers = readers
change_if (some r) change readers = put r (change (readers r)) readers

-- The body that BindCallbacks and ClearCallbacks share.
unfoldable pub set_callbacks : Option ℕ → RepositoryObject → Wires → Wires
set_callbacks target o w = record w {
  device_readers = change_if o.device_reader (set_all target) w.device_readers;
  ip_readers = change_if o.ip_reader (set_all target) w.ip_readers;
  monitors = set_if o.monitor target w.monitors;
}

abbrev pub bind_callbacks : ℕ → RepositoryObject → Wires → Wires
bind_callbacks i o w = set_callbacks (some i) o w

abbrev pub clear_callbacks : RepositoryObject → Wires → Wires
clear_callbacks o w = set_callbacks none o w

-- A repository that was moved from keeps its sync callback.
abbrev pub moved_from : RepositoryObject → RepositoryObject
moved_from o = record {
  sync_timeout = negsuc 0;
  monitor = none;
  device_reader = none;
  ip_reader = none;
  devices = [];
  synchronization_callback = o.synchronization_callback;
  verbose = false;
}

-- The constructor.
unfoldable pub construct : ℕ → Option ℕ → Option ℕ → Option ℕ → Bool → Wires → Wires
construct i monitor device_reader ip_reader verbose w =
    let o : RepositoryObject = record {
      sync_timeout = negsuc 0;
      monitor = monitor;
      device_reader = device_reader;
      ip_reader = ip_reader;
      devices = [];
      synchronization_callback = none;
      verbose = verbose;
    } in
    bind_callbacks i o (record w { repositories = put i (some o) w.repositories })

-- The move constructor of `i` from `j`, which stands as `o`: the pointers are moved first, so the other's
-- ClearCallbacks finds none. The new object has no sync callback.
unfoldable pub move_construct : ℕ → ℕ → RepositoryObject → Wires → Wires
move_construct i j o w =
    let new = record o { synchronization_callback = none } in
    let cleared = clear_callbacks (moved_from o) w in
    bind_callbacks i new (record cleared {
      repositories = put j (some (moved_from o)) (put i (some new) cleared.repositories);
    })

-- The move assignment to `i`, which stands as `old` and keeps its sync callback.
unfoldable pub move_assign : ℕ → RepositoryObject → ℕ → RepositoryObject → Wires → Wires
move_assign i old j o w =
    let new = record o { synchronization_callback = old.synchronization_callback } in
    let cleared = clear_callbacks o (clear_callbacks old w) in
    bind_callbacks i new (record cleared {
      repositories = put j (some (moved_from o)) (put i (some new) cleared.repositories);
    })

-- The destructor.
unfoldable pub destroy : ℕ → RepositoryObject → Wires → Wires
destroy i o w =
    let cleared = clear_callbacks o w in
    record cleared { repositories = put i none cleared.repositories }

-- Both readers and the monitor of a repository call it.
pub record IsCalled (i : ℕ) (o : RepositoryObject) (w : Wires) : Type 0 where
  pub by_device_reader : (r : ℕ) → o.device_reader ≡ some r → w.device_readers r ≡ all_to (some i)
  pub by_ip_reader : (r : ℕ) → o.ip_reader ≡ some r → w.ip_readers r ≡ all_to (some i)
  pub by_monitor : (s : ℕ) → o.monitor ≡ some s → w.monitors s ≡ some i

set_if_hit {ℓ} :
    {A : Type ℓ} (o : Option ℕ) (p : ℕ) (value : A) (objects : ℕ → A)
    → o ≡ some p
    → set_if o value objects p ≡ value
unfolding set_if
set_if_hit o p value objects e = rw e (ground arith)

change_if_hit :
    (o : Option ℕ) (r : ℕ) (target : Option ℕ) (readers : ℕ → Callbacks)
    → o ≡ some r
    → change_if o (set_all target) readers r ≡ all_to target
unfolding change_if
change_if_hit o r target readers e = rw e (ground arith)

set_callbacks-IsCalled :
    (i : ℕ) (o : RepositoryObject) (w : Wires) → IsCalled i o (bind_callbacks i o w)
unfolding set_callbacks
set_callbacks-IsCalled i o w = record {
  by_device_reader = λ r e. change_if_hit o.device_reader r (some i) w.device_readers e;
  by_ip_reader = λ r e. change_if_hit o.ip_reader r (some i) w.ip_readers e;
  by_monitor = λ s e. set_if_hit o.monitor s (some i) w.monitors e;
}

-- After a move construction to another number the readers and the monitor of the old repository call the new one,
-- which has its devices and its timer, and the new one has no sync callback, whatever the old one had: a dump that
-- ends is not passed on.
pub move_construct-IsCalled :
    (i j : ℕ) (o : RepositoryObject) (w : Wires)
    → i ≢ j
    → ((move_construct i j o w).repositories i
        ≡ some (record o { synchronization_callback = none }))
      × ((move_construct i j o w).repositories j ≡ some (moved_from o))
      × IsCalled i o (move_construct i j o w)
unfolding move_construct
move_construct-IsCalled i j o w other =
    let new : RepositoryObject = record o { synchronization_callback = none } in
    let cleared = clear_callbacks (moved_from o) w in
    let before : Wires = record cleared {
      repositories = put j (some (moved_from o)) (put i (some new) cleared.repositories);
    } in
    let called = set_callbacks-IsCalled i new before in
    (
      unfold set_callbacks in ground (arith, other),
      unfold set_callbacks in ground arith,
      record {
        by_device_reader = called.by_device_reader;
        by_ip_reader = called.by_ip_reader;
        by_monitor = called.by_monitor;
      },
    )
