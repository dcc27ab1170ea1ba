-- ===== src/Descriptor/Deleting.antt =====
-- DeletingOwnedFileDescriptor of source/include/owned_file_descriptor.hh: a descriptor with the path of its
-- file. The calls of close(2) and unlink(2) are logged, the last one first.
use link_layer_discovery.Base.{ℕ, ◌≡◌, refl, List, [], ◌∷◌, if◌then◌else◌}
use link_layer_discovery.Base.Ints.{ℤ, pos, negsuc}
use link_layer_discovery.Descriptor.{is_valid}

pub record Deleting : Type 0 where
  pub fd : ℤ
  pub path : List ℕ

pub record Calls : Type 0 where
  pub closed : List ℕ
  pub unlinked : List (List ℕ)

-- `close` where the member's descriptor is valid, as ~OwnedFileDescriptor and its move assignment do.
abbrev pub close_member : ℤ → Calls → Calls
close_member (pos f) c = record c { closed = f ∷ c.closed }
close_member (negsuc n) c = c

-- An object that was moved from.
abbrev pub empty : Deleting
empty = record { fd = negsuc 0; path = [] }

-- The move constructor: the new object, and the other one.
unfoldable pub move_construct : Deleting → Deleting × Deleting
move_construct other = (record { fd = other.fd; path = other.path }, empty)

-- The move assignment to another object: `this`, the other one, and the calls.
unfoldable pub move_assign : Deleting → Deleting → Calls → Deleting × Deleting × Calls
move_assign this other c =
    (record { fd = other.fd; path = other.path }, empty, close_member this.fd c)

-- The destructor, and then that of the member.
unfoldable pub destroy : Deleting → Calls → Calls
unfolding is_valid
destroy d c =
    close_member d.fd (if is_valid d.fd then record c { unlinked = d.path ∷ c.unlinked } else c)

-- After a move construction the two destructors, in either order, do what the one of the object that was moved
-- from would have done: the file is removed once and the descriptor closed once.
pub destroy-move_construct :
    (d : Deleting) (c : Calls)
    → (destroy (move_construct d).1 (destroy (move_construct d).0 c) ≡ destroy d c)
      × (destroy (move_construct d).0 (destroy (move_construct d).1 c) ≡ destroy d c)
unfolding destroy move_construct
destroy-move_construct d c = (refl, refl)

-- After a move assignment between two objects that own a descriptor, the two destructors close both
-- descriptors but remove one file only: that of the object that was assigned to stays.
pub destroy-move_assign :
    (this other : Deleting) (f g : ℕ) (c : Calls)
    → this.fd ≡ pos f
    → other.fd ≡ pos g
    → let after = move_assign this other c in
      destroy after.1 (destroy after.0 after.2)
      ≡ record { closed = g ∷ f ∷ c.closed; unlinked = other.path ∷ c.unlinked }
unfolding destroy move_assign
destroy-move_assign this other f g c a b = rw (a, b) refl
