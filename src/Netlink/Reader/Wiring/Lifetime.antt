-- ===== src/Netlink/Reader/Wiring/Lifetime.antt =====
-- Programs over DeviceReader objects, source/include/device_reader.hh.
use link_layer_discovery.Base.{ℕ, none, some, ◌≡◌, ◌≢◌}
use link_layer_discovery.Netlink.Reader.Wiring.{
  ReaderObject, Wires, construct, move_construct, move_assign_device, destroy,
}
use link_layer_discovery.Netlink.Reader.Wiring.Bound.{
  IsBound, construct-IsBound, move_construct-IsBound, move_assign_device-IsBound, destroy-IsBound,
}

-- An object is made where there is none, with a socket that no reader holds, and used where it stands.
pub data Step : Wires → Wires → Type 0 where
  made :
      (i s : ℕ) (w : Wires) → w.readers i ≡ none → w.callbacks s ≡ none → Step w (construct i s w)
  moved :
      (i j : ℕ) (r : ReaderObject) (w : Wires)
      → w.readers i ≡ none
      → w.readers j ≡ some r
      → Step w (move_construct i j r w)
  assigned :
      (i j : ℕ) (old r : ReaderObject) (w : Wires)
      → i ≢ j
      → w.readers i ≡ some old
      → w.readers j ≡ some r
      → Step w (move_assign_device i old j r w)
  destroyed : (i : ℕ) (r : ReaderObject) (w : Wires) → w.readers i ≡ some r → Step w (destroy i r w)

pub data Run : Wires → Wires → Type 0 where
  stay : (w : Wires) → Run w w
  go : (w v u : Wires) → Step w v → Run v u → Run w u

step-IsBound : (w v : Wires) → Step w v → IsBound w → IsBound v
step-IsBound w v (made i s u absent fresh) b = construct-IsBound i s u absent fresh b
step-IsBound w v (moved i j r u absent there) b = move_construct-IsBound i j r u absent there b
step-IsBound w v (assigned i j old r u other here there) b =
    move_assign_device-IsBound i j old r u other here there b
step-IsBound w v (destroyed i r u there) b = destroy-IsBound i r u there b

-- Over any run of constructions, moves between different objects and destructions of device readers, the socket of a
-- reader calls that reader, and no socket calls a reader that is gone or holds it no more.
pub run-IsBound : (w v : Wires) → Run w v → IsBound w → IsBound v
run-IsBound w v (stay u) b = b
run-IsBound w v (go u t r step rest) b = run-IsBound t r rest (step-IsBound u t step b)
