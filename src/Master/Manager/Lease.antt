-- ===== src/Master/Manager/Lease.antt =====
-- What a heartbeat is for: the lease of the worker, and the online event.
use microcosm.Base.{
  ℕ, ◌≤◌, ◌<◌, ◌++◌, String, false, none, some, [], ◌∷◌, ◌≡◌, arith, lookup, lookup-insert_self,
  ℕ_eq, String_eq, length, returns, Returns,
}
use mathlib.Core.Option
use microcosm.Master.Entry.{
  WorkerEntry, created, normal, mark_as_online, set_expire_time, set_finished,
}
use microcosm.Master.Manager.{
  Manager, ready, HeartbeatPing, load, store, handle_heartbeat, check_master_epoch_match,
  first_heartbeat, next_expire_time, enqueue_or_report, enqueue_event, on_error, check_entry,
  worker_online_event, running, no_hook, event_queue_size,
}

-- A heartbeat of an older epoch changes nothing.
pub stale_heartbeat :
    (now : ℕ) (msg : HeartbeatPing) (from_node : String) (m : Manager)
    → msg.epoch < m.epoch
    → handle_heartbeat now msg from_node m ≡ returns m
unfolding handle_heartbeat check_master_epoch_match
stale_heartbeat now msg from_node m h = ground arith

module _ (now : ℕ) (msg : HeartbeatPing) (from_node : String) (m : Manager) (r : ℕ)
    (e : WorkerEntry) (up : m.state ≡ ready) (same : msg.epoch ≡ m.epoch)
    (known : lookup msg.from_worker_id m.worker_entries ≡ some r)
    (found : lookup r m.heap ≡ some e) where
  -- On a ready manager, with room in the queue, the first heartbeat of a known worker that is created,
  -- in the manager's epoch, does not panic: it takes the worker online under the sender's name, renews
  -- its lease and queues an online event.
  pub first_heartbeat_announces :
      e.state ≡ created
      → length m.event_queue < event_queue_size
      → Returns (handle_heartbeat now msg from_node m) (λ m'.
        (Option.map (λ f. f.state) (lookup r m'.heap) ≡ some normal)
        × (Option.map (λ f. f.executor_id) (lookup r m'.heap) ≡ some from_node)
        × (Option.map (λ f. f.expire_at) (lookup r m'.heap) ≡ some (next_expire_time now m))
        × (m'.event_queue
            ≡ m.event_queue
              ++ record {
                tp = worker_online_event;
                handle = running msg.from_worker_id from_node;
                worker_id = msg.from_worker_id;
                err = none;
                before_hook = no_hook;
              }
                ∷ []))
  unfolding handle_heartbeat check_master_epoch_match first_heartbeat load store mark_as_online
      set_expire_time set_finished enqueue_or_report enqueue_event on_error
  first_heartbeat_announces c room = grind (arith, lookup-insert_self)

  -- After the heartbeat of a known worker that has not finished, in the epoch of a manager that is
  -- ready, the checker leaves the worker alone until its lease ends.
  pub heartbeat_keeps_alive :
      (later : ℕ)
      → e.received_finish ≡ false
      → msg.is_finished ≡ false
      → later ≤ next_expire_time now m
      → Returns
          (handle_heartbeat now msg from_node m)
          (λ m'. check_entry later msg.from_worker_id r m' ≡ returns (m', none))
  unfolding handle_heartbeat check_master_epoch_match first_heartbeat load store mark_as_online
      set_expire_time set_finished enqueue_or_report enqueue_event on_error check_entry
  heartbeat_keeps_alive later nf mf lease = grind (arith, lookup-insert_self)
