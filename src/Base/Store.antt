-- ===== src/Base/Store.antt =====
-- Objects in memory, by their number.
use Prim.Native.Nat.{ℕ}
use link_layer_discovery.Base.Tests.{◌==◌, if◌then◌else◌}

-- The store with one object changed.
abbrev pub put {ℓ} : {A : Type ℓ} → ℕ → A → (ℕ → A) → ℕ → A
put i v objects j = if j == i then v else objects j
