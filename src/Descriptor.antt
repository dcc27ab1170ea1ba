-- ===== src/Descriptor.antt =====
-- OwnedFileDescriptor of source/include/owned_file_descriptor.hh and
-- source/src/owned_file_descriptor.cc. The objects are numbered; the kernel is which descriptors are open,
-- and how often one was closed that was not.
pub mod Ownership
pub mod Lifetime
pub mod Deleting
use link_layer_discovery.Base.{ℕ, suc, Bool, true, false, Option, none, some, ◌==◌, if◌then◌else◌}
use link_layer_discovery.Base.Store.{put}
use link_layer_discovery.Base.Ints.{ℤ, pos, negsuc}

pub record State : Type 0 where
  pub objects : ℕ → Option ℤ
  pub is_open : ℕ → Bool
  pub faults : ℕ

-- close(2)
abbrev pub close_descriptor : ℕ → State → State
close_descriptor f s =
    if s.is_open f
    then record s { is_open = put f false s.is_open }
    else record s { faults = suc s.faults }

-- `if (fd_ >= 0) close(fd_)`, of an object that is there.
unfoldable pub close_valid : Option ℤ → State → State
close_valid none s = s
close_valid (some (negsuc n)) s = s
close_valid (some (pos f)) s = close_descriptor f s

-- `IsValid`
unfoldable pub is_valid : ℤ → Bool
is_valid (pos f) = true
is_valid (negsuc n) = false

-- What the kernel does where it gives out a descriptor.
unfoldable pub open_descriptor : ℤ → State → State
open_descriptor (pos f) s = record s { is_open = put f true s.is_open }
open_descriptor (negsuc n) s = s

-- The constructor, on what a system call has returned.
unfoldable pub construct : ℕ → ℤ → State → State
construct i fd s =
    let opened = open_descriptor fd s in record opened { objects = put i (some fd) opened.objects }

abbrev pub moved_out : Option ℤ
moved_out = some (negsuc 0)

-- The body that both moves share: `fd_ = other.fd_; other.fd_ = -1`.
abbrev pub take_over : ℕ → ℕ → (ℕ → Option ℤ) → ℕ → Option ℤ
take_over i j objects = put j moved_out (put i (objects j) objects)

-- The move constructor, of `i` from `j`.
unfoldable pub move_construct : ℕ → ℕ → State → State
move_construct i j s = record s { objects = take_over i j s.objects }

-- The move assignment, to `i` from `j`, which may be the same object.
unfoldable pub move_assign : ℕ → ℕ → State → State
move_assign i j s =
    let closed = close_valid (s.objects i) s in
    record closed { objects = take_over i j closed.objects }

-- The destructor.
unfoldable pub destroy : ℕ → State → State
destroy i s =
    let closed = close_valid (s.objects i) s in
    record closed { objects = put i none closed.objects }
