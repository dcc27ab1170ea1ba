-- ===== src/Repository/Moves.antt =====
-- LldpRepository as an object, source/include/lldp_repository.hh: its moves, and where the sync callback of a device
-- repository goes. Objects are numbered. `none` is the dereference of a null pointer.
use link_layer_discovery.Base.{ℕ, ◌≡◌, ◌≢◌, refl, [], Option, none, some, arith}
use link_layer_discovery.Base.Ints.{ℤ, negsuc}
use link_layer_discovery.Base.Map.{Map}
use link_layer_discovery.Base.Store.{put}
use link_layer_discovery.Sender.{LldpSender}

pub record LldpRepository : Type 0 where
  pub ethernet_broadcast_socket : ℤ
  pub current_state : Map ℕ LldpSender
  pub device_repository : Option ℕ

-- The LldpRepositories, and the target of the sync callback of each device repository.
pub record Objects : Type 0 where
  pub repositories : ℕ → Option LldpRepository
  pub sync_callbacks : ℕ → Option ℕ

-- What a move leaves: the senders stay.
abbrev pub moved_from : LldpRepository → LldpRepository
moved_from o = record {
  ethernet_broadcast_socket = negsuc 0;
  current_state = o.current_state;
  device_repository = none;
}

-- The new content of `i`, which takes the socket and the device repository of `j` and sets the sync callback.
take_over : ℕ → LldpRepository → ℕ → LldpRepository → Option ℕ → Objects → Option Objects
take_over i new j o none w = none
take_over i new j o (some d) w = some (record {
  repositories = put j (some (moved_from o)) (put i (some new) w.repositories);
  sync_callbacks = put d (some i) w.sync_callbacks;
})

-- The move constructor of `i` from `j`, which stands as `o`: it makes no senders.
unfoldable pub move_construct : ℕ → ℕ → LldpRepository → Objects → Option Objects
unfolding take_over
move_construct i j o w = take_over i (record o { current_state = [] }) j o o.device_repository w

-- The move assignment to `i`, which stands as `old` and keeps its senders. Its own device repository is let go, and
-- with it that one's callback.
unfoldable pub move_assign : ℕ → LldpRepository → ℕ → LldpRepository → Objects → Option Objects
unfolding take_over
move_assign i old j o w =
    take_over i (record o { current_state = old.current_state }) j o o.device_repository w

clear_sync : Option ℕ → Objects → Objects
clear_sync none w = w
clear_sync (some d) w = record w { sync_callbacks = put d none w.sync_callbacks }

-- The destructor.
unfoldable pub destroy : ℕ → LldpRepository → Objects → Objects
unfolding clear_sync
destroy i o w =
    let cleared = clear_sync o.device_repository w in
    record cleared { repositories = put i none cleared.repositories }

taken : ℕ → LldpRepository → ℕ → LldpRepository → ℕ → Objects → Objects
taken i new j o d w = record {
  repositories = put j (some (moved_from o)) (put i (some new) w.repositories);
  sync_callbacks = put d (some i) w.sync_callbacks;
}

take_over_lem :
    (i j d : ℕ) (new o : LldpRepository) (pointer : Option ℕ) (w : Objects)
    → pointer ≡ some d
    → take_over i new j o pointer w ≡ some (taken i new j o d w)
unfolding take_over taken
take_over_lem i j d new o pointer w e = rw e refl

-- After a move construction, and the destruction of the repository that was moved from, the device repository still
-- calls the new one; but the new one has no senders, whatever senders there were.
pub move_construct-destroy :
    (i j d : ℕ) (o : LldpRepository) (w : Objects)
    → i ≢ j
    → o.device_repository ≡ some d
    → (v : Objects) × (move_construct i j o w ≡ some v)
      × ((destroy j (moved_from o) v).sync_callbacks d ≡ some i)
      × ((destroy j (moved_from o) v).repositories i ≡ some (record o { current_state = [] }))
unfolding move_construct destroy clear_sync taken
move_construct-destroy i j d o w other e =
    let new : LldpRepository = record o { current_state = [] } in
    (
      taken i new j o d w,
      take_over_lem i j d new o o.device_repository w e,
      ground arith,
      ground (arith, other),
    )
