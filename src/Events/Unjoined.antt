-- ===== src/Events/Unjoined.antt =====
-- EventManager::Add of a handler that has no manager, where the counter's id is free, source/src/event_handlers.cc.
use link_layer_discovery.Base.{ℕ, suc, ◌≡◌, ◌≢◌, refl, none, some, arith, length}
use link_layer_discovery.Base.Words.{u64}
use link_layer_discovery.Base.Key.{nat_key}
use link_layer_discovery.Base.Map.{lookup, insert}
use link_layer_discovery.Base.Store.{put}
use link_layer_discovery.Events.{
  World, Handler, added, failed, events_of, leave_old, free_id, add_counted, register, add,
}

-- What Add does with a handler that has no manager.
pub add_unjoined :
    (m h : ℕ) (d : Handler) (w : World)
    → d.event_manager ≡ none
    → w.answer (length w.calls) ≡ none
    → lookup (w.managers m).event_id_counter (events_of m w) ≡ none
    → let id = (w.managers m).event_id_counter in
      ((add m h d w).0 ≡ added id)
      × ((add m h d w).1.handlers
          ≡ put h (some (record d { event_manager = some m; handle = id })) w.handlers)
      × ((add m h d w).1.answer ≡ w.answer)
      × ((add m h d w).1.managers m ≡ record {
        registered_events = insert id h (events_of m w);
        event_id_counter = u64 (suc id);
      })
unfolding add leave_old free_id add_counted register
add_unjoined m h d w lone good free = rw (lone, free, good) (refl, refl, refl, ground arith)

-- It leaves the events of the other managers.
pub add_unjoined_others :
    (m h k : ℕ) (d : Handler) (w : World)
    → d.event_manager ≡ none
    → w.answer (length w.calls) ≡ none
    → k ≢ m
    → (add m h d w).1.managers k ≡ w.managers k
unfolding add leave_old add_counted register
add_unjoined_others m h k d w lone good other = rw (lone, good) (ground (arith, other))

-- Where epoll_ctl refuses it, nothing is changed: the free id is the counter's.
pub add_unjoined_refused :
    (m h error : ℕ) (d : Handler) (w : World)
    → d.event_manager ≡ none
    → w.answer (length w.calls) ≡ some error
    → lookup (w.managers m).event_id_counter (events_of m w) ≡ none
    → ((add m h d w).0 ≡ failed error)
      × ((add m h d w).1.handlers ≡ w.handlers)
      × ((k : ℕ) → (add m h d w).1.managers k ≡ w.managers k)
unfolding add leave_old free_id add_counted register
add_unjoined_refused m h error d w lone bad free =
    rw (lone, free, bad) (refl, refl, λ k. ground arith)

-- epoll goes on to answer as it does.
pub add_unjoined-answer :
    (m h : ℕ) (d : Handler) (w : World) → d.event_manager ≡ none → (add m h d w).1.answer ≡ w.answer
unfolding add leave_old add_counted register
add_unjoined-answer m h d w lone = rw lone (ground arith)
