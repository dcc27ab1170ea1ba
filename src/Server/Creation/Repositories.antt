-- ===== src/Server/Creation/Repositories.antt =====
-- What is left after LldpRepository::Create of source/src/lldp_repository.cc, on every path.
use link_layer_discovery.Base.{
  ℕ, suc, ◌≡◌, refl, List, [], ◌∷◌, Option, none, some, arith, inl, inr,
}
use link_layer_discovery.Base.Ints.{pos}
use link_layer_discovery.Base.Key.{nat_key}
use link_layer_discovery.Base.Map.{Map, lookup}
use link_layer_discovery.Descriptor.{is_valid}
use link_layer_discovery.Opening.{create_plain}
use link_layer_discovery.Server.Creation.{
  Machine, answer_of, create_joined, LocalSockets, with_ip_reader, with_device_reader, with_monitor,
  create_device_repository, drop_device_repository, LldpParts, with_broadcast, with_devices,
  create_lldp_repository,
}
use link_layer_discovery.Server.Creation.Sockets.{Fits}
use link_layer_discovery.Server.Creation.Held.{Holds, Holds-same, Holds-own, Holds-drop}
use link_layer_discovery.Server.Creation.Joined.{ℤ-cases, Made, weaken, create_joined-Made}

Holds-weaken :
    {m n : ℕ} {owned : List ℕ} {held : Map ℕ ℕ} {s t : Machine}
    → Holds m (suc n) owned held s t
    → Holds m n owned held s t
Holds-weaken {n = n} {t = t} h = Holds-same h n t (weaken h.fits) (λ k. refl) (λ fd. omega arith)

-- The sockets of a DeviceRepository and their descriptors, the last one that was made first.
abbrev pub sockets_held : LocalSockets → ℕ → ℕ → ℕ → Map ℕ ℕ
sockets_held r f g k = (r.ip_reader, k) ∷ (r.device_reader, g) ∷ (r.monitor, f) ∷ []

-- No two of them are the same object.
abbrev pub AreApart : LocalSockets → ℕ → ℕ → ℕ → Type 0
AreApart r f g k =
    (lookup r.ip_reader ((r.device_reader, g) ∷ (r.monitor, f) ∷ []) ≡ none)
    × (lookup r.device_reader ((r.monitor, f) ∷ []) ≡ none)

abbrev MadeLocal : (m n : ℕ) (s : Machine) → Option LocalSockets × Machine → Type 0
MadeLocal m n s (none, u) = Holds m n [] [] s u
MadeLocal m n s (some r, u) =
    (f : ℕ) × (g : ℕ) × (k : ℕ) × Holds m n [] (sockets_held r f g k) s u × AreApart r f g k

with_ip_reader-Made :
    (m n i j f g : ℕ) (s : Machine) (result : Option ℕ × Machine)
    → Made m n [] ((j, g) ∷ (i, f) ∷ []) s result
    → lookup j ((i, f) ∷ []) ≡ none
    → MadeLocal m n s (with_ip_reader i j result)
unfolding with_ip_reader
with_ip_reader-Made m n i j f g s (none, u) h apart =
    Holds-drop (Holds-drop h apart) (unfold lookup in refl)
with_ip_reader-Made m n i j f g s (some l, u) (k, h, out) apart = (f, g, k, h, (out, apart))

with_device_reader-Made :
    (m n i f : ℕ) (s : Machine) (result : Option ℕ × Machine)
    → Made m (suc n) [] ((i, f) ∷ []) s result
    → MadeLocal m n s (with_device_reader m i result)
unfolding with_device_reader
with_device_reader-Made m n i f s (none, u) h = Holds-drop (Holds-weaken h) (unfold lookup in refl)
with_device_reader-Made m n i f s (some j, u) (g, h, out) =
    with_ip_reader-Made m n i j f g s (create_joined m u)
      (create_joined-Made m n [] ((j, g) ∷ (i, f) ∷ []) s u h) out

with_monitor-Made :
    (m n : ℕ) (s : Machine) (result : Option ℕ × Machine)
    → Made m (suc (suc n)) [] [] s result
    → MadeLocal m n s (with_monitor m result)
unfolding with_monitor
with_monitor-Made m n s (none, u) h = Holds-weaken (Holds-weaken h)
with_monitor-Made m n s (some i, u) (f, h, out) =
    with_device_reader-Made m n i f s (create_joined m u)
      (create_joined-Made m (suc n) [] ((i, f) ∷ []) s u h)

-- What LldpRepository::Create leaves: the three registered sockets and the broadcast socket of the repository, or
-- nothing.
abbrev pub Left : (m n : ℕ) (s : Machine) → Option LldpParts × Machine → Type 0
Left m n s (none, u) = Holds m n [] [] s u
Left m n s (some p, u) =
    (f : ℕ) × (g : ℕ) × (k : ℕ) × (b : ℕ) × (p.broadcast ≡ pos b)
    × Holds m n (b ∷ []) (sockets_held p.local_sockets f g k) s u
    × AreApart p.local_sockets f g k

drop-Left :
    (m n f g k : ℕ) (r : LocalSockets) (s u : Machine)
    → Holds m n [] (sockets_held r f g k) s u
    → AreApart r f g k
    → Holds m n [] [] s (drop_device_repository r u)
unfolding drop_device_repository
drop-Left m n f g k r s u h apart =
    Holds-drop (Holds-drop (Holds-drop h apart.0) apart.1) (unfold lookup in refl)

with_devices-Left :
    (m n : ℕ) (s : Machine) (result : Option LocalSockets × Machine)
    → MadeLocal m n s result
    → Left m n s (with_devices result)
unfolding with_devices with_broadcast create_plain is_valid
with_devices-Left m n s (none, u) h = h
with_devices-Left m n s (some r, u) (f, g, k, h, apart) = elim (ℤ-cases (answer_of u).fd) [
  | inr (e, bad) ↦
      rw bad
        (drop-Left m n f g k r s _ (Holds-same h n _ h.fits (λ i. refl) (λ fd. omega arith)) apart)
  | inl (b, good) ↦ rw good (f, g, k, b, refl, Holds-own h b _ refl refl (λ fd. omega arith), apart)
]

-- Nothing has been made yet.
pub start-Holds : (m n : ℕ) (s : Machine) → Fits m n s.next_object s.world → Holds m n [] [] s s
unfolding lookup
start-Holds m n s f = record {
  fits = f;
  others = λ k out. refl;
  joined = λ k fd at. absurd (ground (arith, at));
  before = λ k fd at. absurd (ground (arith, at));
  balance = λ fd. omega arith;
}

-- Where the links hold, at least three more handlers fit the manager, and the numbers from the next one on are unused, then whatever
-- the kernel answers, LldpRepository::Create either leaves its three sockets registered with the manager and its
-- broadcast socket open, or returns an error and leaves no handler that it made and changes no other; in both
-- cases each further descriptor that it opened was closed exactly once, no other was closed, and the links
-- hold.
pub create_lldp_repository-Left :
    (m n : ℕ) (s : Machine)
    → Fits m (suc (suc (suc n))) s.next_object s.world
    → Left m n s (create_lldp_repository m s)
unfolding create_lldp_repository create_device_repository
create_lldp_repository-Left m n s f = with_devices-Left m n s (create_device_repository m s) (
    with_monitor-Made m n s (create_joined m s)
      (create_joined-Made m (suc (suc n)) [] [] s s (start-Holds m (suc (suc (suc n))) s f)))
