-- ===== src/Server/Creation/Granted.antt =====
-- The Create functions of Server.Creation where the kernel refuses nothing.
use link_layer_discovery.Base.{ℕ, suc, ◌≡◌, refl, subst, true, [], ◌∷◌, none, some, arith, length}
use link_layer_discovery.Base.Ints.{pos}
use link_layer_discovery.Base.Map.{Map}
use link_layer_discovery.Descriptor.{is_valid}
use link_layer_discovery.Server.Creation.Repositories.{start-Holds}
use link_layer_discovery.Opening.{create_netlink_socket, create_plain}
use link_layer_discovery.Events.{add, create_handler}
use link_layer_discovery.Events.Unjoined.{add_unjoined}
use link_layer_discovery.Server.Creation.{
  Machine, epollin, create_socket, create_joined, LldpParts, create_device_repository,
  create_lldp_repository,
}
use link_layer_discovery.Server.Creation.Sockets.{Fits, create_handler-Fits}
use link_layer_discovery.Server.Creation.Held.{Holds}
use link_layer_discovery.Server.Creation.Joined.{
  Made, new_socket, with_socket, keep_added_good, create_joined-Made,
}

-- Every attempt to open a socket succeeds, and epoll_ctl refuses nothing.
pub record IsGranted (s : Machine) : Type 0 where
  pub valid : (n : ℕ) → (f : ℕ) × ((s.sockets n).fd ≡ pos f)
  pub set_up : (n : ℕ) → (s.sockets n).set_up ≡ true
  pub answered : (n : ℕ) → s.world.answer n ≡ none

create_joined_succeeds :
    (m n : ℕ) (t : Machine)
    → IsGranted t
    → Fits m (suc n) t.next_object t.world
    → (i : ℕ) × (u : Machine) × (create_joined m t ≡ (some i, u)) × IsGranted u
unfolding create_joined create_socket create_netlink_socket is_valid
create_joined_succeeds m n t g h =
    let (f, e) = g.valid t.attempts in
    let i = t.next_object in
    let w = with_socket f t in
    let made = create_handler-Fits m (suc n) i epollin (pos f) t.world h in
    let there : w.handlers i ≡ some (new_socket f) = unfold create_handler in ground arith in
    let free = made.room.above (w.managers m).event_id_counter (omega arith) in
    let taken : w.answer (length w.calls) ≡ none = unfold create_handler in (g.answered _) in
    let r = add_unjoined m i (new_socket f) w refl taken free in
    let id = (w.managers m).event_id_counter in
    (
      i,
      (create_joined m t).1,
      rw (e, g.set_up t.attempts, there, keep_added_good i id _ (add m i (new_socket f) w) r.0)
          refl,
      rw (e, g.set_up t.attempts, there, keep_added_good i id _ (add m i (new_socket f) w) r.0)
          (record {
            valid = g.valid;
            set_up = g.set_up;
            answered = λ k. rw r.2 (unfold create_handler in g.answered k);
          }),
    )

-- The step keeps what the steps before it have made.
next_joined :
    (m n : ℕ) (held : Map ℕ ℕ) (s t : Machine)
    → IsGranted t
    → Holds m (suc n) [] held s t
    → (i : ℕ) × (f : ℕ) × (u : Machine) × (create_joined m t ≡ (some i, u))
      × IsGranted u
      × Holds m n [] ((i, f) ∷ held) s u
next_joined m n held s t g h =
    let (i, u, e, granted) = create_joined_succeeds m n t g h.fits in
    let (f, h', out) = subst (Made m n [] held s) e (create_joined-Made m n [] held s t h) in
    (i, f, u, e, granted, h')

-- Where the links hold, at least three more handlers fit the manager, the numbers from the next one on are unused, and the
-- kernel refuses nothing, LldpRepository::Create succeeds.
pub create_lldp_repository_succeeds :
    (m n : ℕ) (s : Machine)
    → IsGranted s
    → Fits m (suc (suc (suc n))) s.next_object s.world
    → (p : LldpParts) × (u : Machine) × (create_lldp_repository m s ≡ (some p, u)) × IsGranted u
unfolding create_lldp_repository create_device_repository create_plain is_valid
create_lldp_repository_succeeds m n s g fits =
    let start = start-Holds m (suc (suc (suc n))) s fits in
    let (i, f, t, e, gt, ht) = next_joined m (suc (suc n)) [] s s g start in
    let (j, k, u, e', gu, hu) = next_joined m (suc n) ((i, f) ∷ []) s t gt ht in
    let (l, d, v, e'', gv, hv) = next_joined m n ((j, k) ∷ (i, f) ∷ []) s u gu hu in
    let (b, valid) = gv.valid v.attempts in
    (
      record {
        local_sockets = record { monitor = i; device_reader = j; ip_reader = l };
        broadcast = pos b;
      },
      (create_lldp_repository m s).1,
      rw (e, e', e'', valid) refl,
      rw (e, e', e'', valid)
          (record { valid = gv.valid; set_up = gv.set_up; answered = gv.answered }),
    )
