-- ===== src/Events/HandlerMove.antt =====
-- The moves of EventHandler, source/include/event_handlers.hh: the pointers move, and the manager's weak pointer does not.
use link_layer_discovery.Base.{ℕ, ◌≡◌, none, some, arith}
use link_layer_discovery.Base.Ints.{ℤ}
use link_layer_discovery.Base.Key.{nat_key}
use link_layer_discovery.Base.Store.{put}
use link_layer_discovery.Events.{World, Handler, unlinked}
use link_layer_discovery.Events.Links.{IsLinked}
use link_layer_discovery.Events.Adding.{IsNew}

-- The move constructor of `i` from `j`, which stands as `d`. What the derived class returns from GetSocket after the
-- move is `socket` for `j`.
unfoldable pub move_construct : ℕ → ℕ → Handler → ℤ → World → World
move_construct i j d socket w = record w {
  handlers = put j (some (record (unlinked d) { socket = socket })) (put i (some d) w.handlers);
}

-- The move assignment to `i`, which stands as `old` and does not leave its manager.
unfoldable pub move_assign : ℕ → Handler → ℕ → Handler → ℤ → World → World
move_assign i old j d socket w = record w {
  handlers = put j (some (record (unlinked d) { socket = socket })) (put i (some d) w.handlers);
}

-- A handler without a manager, as every Create function of the program moves it, may be moved to a new object: the links
-- hold.
pub move_construct-IsLinked :
    (i j : ℕ) (d : Handler) (socket : ℤ) (w : World)
    → IsNew i w
    → w.handlers j ≡ some d
    → d.event_manager ≡ none
    → IsLinked w
    → IsLinked (move_construct i j d socket w)
unfolding move_construct
move_construct-IsLinked i j d socket w new there lone l = record {
  linked = λ m id h e at alive.
      ground (
        arith,
        at,
        alive,
        there,
        lone,
        new.unregistered m id,
        l.linked m id h e,
        l.linked m id h d,
      );
  registered = λ h m e alive at. ground (arith, alive, at, lone, l.registered h m e);
  no_zero = l.no_zero;
}

-- A handler that is registered may not: after the move the event still goes to the old object, which has no manager any
-- more, and the links do not hold.
pub move_construct_unlinks :
    (i j m : ℕ) (d : Handler) (socket : ℤ) (w : World)
    → w.handlers j ≡ some d
    → d.event_manager ≡ some m
    → IsLinked w
    → ¬ IsLinked (move_construct i j d socket w)
unfolding move_construct
move_construct_unlinks i j m d socket w there joined l l' =
    let at = l.registered j m d there joined in
    let old : Handler = record (unlinked d) { socket = socket } in
    let both = l'.linked m d.handle j old at (ground arith) in absurd (ground (arith, both.0))
