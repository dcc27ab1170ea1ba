-- ===== src/Server/Rounds/Same.antt =====
-- What the calls of the server's rounds leave as it was: the handlers below a number, and what epoll answers.
-- source/src/event_handlers.cc and source/src/client.cc.
use link_layer_discovery.Base.{
  ℕ, ◌≤◌, ◌<◌, ◌≡◌, refl, ◌∙◌, List, [], ◌∷◌, none, arith, length, Option-cases, inl, inr,
}
use link_layer_discovery.Base.Ints.{ℤ}
use link_layer_discovery.Base.Key.{nat_key}
use link_layer_discovery.Base.Map.{lookup, IsAscending}
use link_layer_discovery.Client.Sockets.{release}
use link_layer_discovery.Events.{
  World, Handler, events_of, leave_old, remove, add, create_handler, destroy_handler,
}
use link_layer_discovery.Events.Links.{IsLinked}
use link_layer_discovery.Events.Process.{expired_handlers, remove_each, remove_expired}
use link_layer_discovery.Events.Expired.{remove_expired-handlers}
use link_layer_discovery.Events.Unjoined.{add_unjoined, add_unjoined_refused, add_unjoined-answer}
use link_layer_discovery.Server.Creation.Sockets.{destroy_handler-handlers}

pub record Same (base : ℕ) (v w : World) : Type 0 where
  pub same_answer : v.answer ≡ w.answer
  pub steady : (k : ℕ) → k < base → v.handlers k ≡ w.handlers k

pub Same-refl : (base : ℕ) (w : World) → Same base w w
Same-refl base w = record { same_answer = refl; steady = λ k less. refl }

pub Same-trans : (base : ℕ) (u v w : World) → Same base u v → Same base v w → Same base u w
Same-trans base u v w a b = record {
  same_answer = a.same_answer ∙ b.same_answer;
  steady = λ k less. a.steady k less ∙ b.steady k less;
}

remove-answer : (i id : ℕ) (w : World) → (remove i id w).1.answer ≡ w.answer
unfolding remove
remove-answer i id w = ground arith

remove_each-answer : (i : ℕ) (ids : List ℕ) (w : World) → (remove_each i ids w).answer ≡ w.answer
unfolding remove_each
remove_each-answer i [] w = refl
remove_each-answer i (id ∷ ids) w =
    remove_each-answer i ids (remove i id w).1 ∙ remove-answer i id w

pub remove_expired-Same :
    (base m : ℕ) (w : World) → IsAscending (events_of m w) → Same base (remove_expired m w) w
remove_expired-Same base m w a = record {
  same_answer = remove_each-answer m (expired_handlers (events_of m w) w) w;
  steady = λ k less. rw (remove_expired-handlers m w a) refl;
}

destroy_handler-answer :
    (h : ℕ) (d : Handler) (w : World) → (destroy_handler h d w).answer ≡ w.answer
unfolding destroy_handler leave_old remove
destroy_handler-answer h d w = ground arith

pub release-Same : (base h : ℕ) (w : World) → IsLinked w → base ≤ h → Same base (release h w) w
unfolding release
release-Same base h w l high = elim (Option-cases (w.handlers h)) [
  | inl e ↦ rw e (Same-refl base w)
  | inr (d, e) ↦ rw e (record {
    same_answer = destroy_handler-answer h d w;
    steady = λ k less. rw (destroy_handler-handlers h d w l e) (ground (arith, less, high));
  })
]

pub create_handler-Same :
    (base h events : ℕ) (fd : ℤ) (w : World) → base ≤ h → Same base (create_handler h fd events w) w
unfolding create_handler
create_handler-Same base h events fd w high = record {
  same_answer = refl;
  steady = λ k less. ground (arith, less, high);
}

pub add-Same :
    (base m h : ℕ) (d : Handler) (w : World)
    → base ≤ h
    → d.event_manager ≡ none
    → lookup (w.managers m).event_id_counter (events_of m w) ≡ none
    → Same base (add m h d w).1 w
add-Same base m h d w high lone free = record {
  same_answer = add_unjoined-answer m h d w lone;
  steady = λ k less. elim (Option-cases (w.answer (length w.calls))) [
    | inl good ↦ rw ((add_unjoined m h d w lone good free).1) (ground (arith, less, high))
    | inr (error, bad) ↦ rw ((add_unjoined_refused m h error d w lone bad free).1) refl
  ];
}
