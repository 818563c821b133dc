-- ===== src/Worker/Tests.antt =====
-- Runs of a worker's timeouts, exit, status and lease.
use microcosm.Base.{
  ℕ, List, ◌++◌, ◌+◌, ◌*◌, String, true, false, none, some, [], ◌∷◌, ◌≡◌, ◌≢◌, refl, inl, inr,
  arith, lookup, insert, ℕ_eq, String_eq, returns, panics, Returns,
}
use mathlib.Core.Option
use microcosm.Master.Entry.{
  WorkerStatus, StatusCode, created, mark_as_online, set_expire_time, set_finished,
}
use microcosm.Master.Manager.{
  Manager, ready, handle_heartbeat, check_entry, check_master_epoch_match, first_heartbeat,
  enqueue_or_report, enqueue_event, store, load,
}
use microcosm.Worker.MessageRouter.{MessageRouter}
use microcosm.Worker.MessageRouter.Window.{keep_last, append_all, append_all-keep_last}
use microcosm.Worker.Timeouts.{TimeoutConfig, adjust, default_timeout_config, second}
use microcosm.Worker.MasterClient.{
  MasterClient, MasterInfo, loaded, handle_pong, check_master_timeout, heartbeat_message, timed_out,
  refresh_master_info, accept, HeartbeatPong, Ping,
}
use microcosm.Worker.Exit.{
  WorkerError, worker_half_exit, worker_suicide, ExitController, Round, new_worker_exit_controller,
  force_exit, poll, run,
}
use microcosm.Worker.Exit.Ends.{poll_ends, force_exit_ends}
use microcosm.Worker.Status.{Writer, World, update_status}
use microcosm.Worker.Status.Persisted.{
  IsFaithful, Written, update_status-Written, Lost, worker_updates, worker_updates-Lost,
}
use microcosm.Worker.Lease.{
  System, Reach, here, next, time_passes, pings_master, sends_pong, renews_lease, hears_pong, first,
  pong_of, received,
}
use microcosm.Worker.Lease.Inv.{IsSafe}
use microcosm.Worker.Lease.Safe.{keeps_worker}

abbrev short : TimeoutConfig
short = record default_timeout_config { worker_timeout_duration = 1 * second }

abbrev suicide : WorkerError
suicide = worker_suicide "m"

abbrev failing : ExitController
failing = record new_worker_exit_controller { err_center = some suicide }

abbrev quiet_at : ℕ → Round
quiet_at t = record {
  now = t;
  master_closed = false;
  handlers = none;
  router = none;
  impl_tick = none;
}

failing_normal : failing.worker_exit_fsm ≡ new_worker_exit_controller.worker_exit_fsm
failing_normal = refl

not_half : suicide ≢ worker_half_exit
not_half q = cc

poll_ends_example :
    ((poll (quiet_at 7) failing).1 ≡ none)
    × ((poll (quiet_at (20 * second)) (run (quiet_at 8 ∷ []) (poll (quiet_at 7) failing).0)).1
        ≡ some suicide)
unfolding new_worker_exit_controller
poll_ends_example =
    poll_ends suicide (quiet_at 7) (quiet_at (20 * second)) (quiet_at 8 ∷ []) failing not_half refl
      refl (inr (omega arith))

force_exit_ends_example :
    (poll (quiet_at 3) (force_exit suicide new_worker_exit_controller)).1 ≡ some suicide
unfolding new_worker_exit_controller
force_exit_ends_example =
    force_exit_ends suicide (quiet_at 3) new_worker_exit_controller not_half refl

abbrev status_of : StatusCode → WorkerStatus
status_of code = record { code = code; error_message = ""; ext_bytes = "" }

-- A writer that remembers one object, while the worker has another.
abbrev two_objects : Writer
two_objects = record {
  heap = (0, status_of StatusCode.finished) ∷ (1, status_of StatusCode.normal) ∷ [];
  last_status = some 1;
  persisted = some (status_of StatusCode.normal);
}

two_objects-IsFaithful : IsFaithful two_objects
unfolding lookup
two_objects-IsFaithful r q =
    (status_of StatusCode.normal, status_of StatusCode.normal, ground arith, (refl, (refl, refl)))

abbrev online : World
online = record { writes = true; sends = true }

update_status-Written_example :
    Returns (update_status online 0 two_objects) (Written (status_of StatusCode.finished))
unfolding lookup
update_status-Written_example =
    update_status-Written online 0 (status_of StatusCode.finished) two_objects refl
      two_objects-IsFaithful

abbrev shared : Writer
shared = record two_objects { last_status = some 0 }

worker_updates-Lost_example :
    Returns (worker_updates ((online, status_of StatusCode.error) ∷ []) 0 shared) (Lost 0 shared)
unfolding lookup
worker_updates-Lost_example =
    worker_updates-Lost ((online, status_of StatusCode.error) ∷ []) 0 shared (refl, refl)

-- A ready master whose worker's lease lasts twenty seconds, and the worker.
abbrev master : Manager
master = record {
  heap =
      (
        0,
        record {
          id = "w";
          executor_id = "e";
          expire_at = 20 * second;
          state = created;
          received_finish = false;
          status = none;
        },
      )
      ∷ [];
  next_ref = 1;
  worker_entries = ("w", 0) ∷ [];
  state = ready;
  epoch = 2;
  event_queue = [];
  err_center = none;
  all_workers_ready = false;
  worker_timeout = 15 * second;
  worker_timeout_graceful = 5 * second;
}

abbrev worker : MasterClient
worker = record {
  master_id = "m";
  master_node = "n";
  master_epoch = 2;
  worker_id = "w";
  last_master_acked_ping_time = 0;
  master_side_closed = false;
  timeout_config = default_timeout_config;
}

abbrev both : System
both = record {
  now = 0;
  manager = master;
  client = worker;
  pings = [];
  pongs = [];
  half_handled = none;
}

abbrev ping : Ping
ping = heartbeat_message (3 * second) false worker

abbrev pong : HeartbeatPong
pong = pong_of ping master

abbrev renewed : Manager
renewed = elim (handle_heartbeat (4 * second) (received ping) "e" master) [
  | returns m ↦ m
  | panics ↦ master
]

renewed_lem : handle_heartbeat (4 * second) (received ping) "e" master ≡ returns renewed
unfolding handle_heartbeat check_master_epoch_match first_heartbeat load store lookup mark_as_online
    set_expire_time set_finished enqueue_or_report enqueue_event heartbeat_message insert
renewed_lem = refl

abbrev later_on : System
later_on = record {
  now = 17 * second;
  manager = renewed;
  client = handle_pong "n" pong worker;
  pings = ping ∷ [];
  pongs = pong ∷ [];
  half_handled = none;
}

-- A ping is sent after three seconds and answered a second later; then thirteen seconds pass.
exchange : Reach 0 both later_on
exchange =
    next
      (next
        (next
          (next
            (next (next (next here (time_passes (3 * second) refl)) (pings_master false refl))
              (time_passes (1 * second) refl))
            (sends_pong ping (first []) refl refl))
          (hears_pong pong "n" (first []) refl))
        (renews_lease ping "e" renewed refl renewed_lem refl))
      (time_passes (13 * second) refl)

both-IsSafe :
    IsSafe "w" 0 2
      ((adjust default_timeout_config).worker_timeout_duration + 5 * second)
      (adjust default_timeout_config)
      both
unfolding lookup adjust default_timeout_config
both-IsSafe = record {
  expire = 20 * second;
  holds = (refl, refl, refl, refl, refl, refl);
  client_id = refl;
  client_epoch = refl;
  client_config = refl;
  acked = inl (omega arith);
  acked_past = omega arith;
  pings = tt;
  half = λ p q. absurd (cc);
  pongs = tt;
}

abbrev info : MasterInfo
info = record { node_id = "n"; epoch = 2 }

alive :
    (check_master_timeout {E = String} later_on.now (loaded info) none later_on.client).1
    ≢ timed_out
unfolding check_master_timeout refresh_master_info handle_pong accept adjust default_timeout_config
    heartbeat_message
alive q = ground arith

still_open : Option.map (λ e. e.received_finish) (lookup 0 renewed.heap) ≡ some false
unfolding handle_heartbeat check_master_epoch_match first_heartbeat load store lookup mark_as_online
    set_expire_time set_finished enqueue_or_report enqueue_event heartbeat_message insert
    microcosm.Master.Manager.on_error
still_open = refl

keeps_worker_example : check_entry (17 * second) "w" 0 renewed ≡ returns (renewed, none)
keeps_worker_example =
    keeps_worker "w" 0 2 (5 * second) default_timeout_config info both later_on both-IsSafe exchange
      refl alive still_open

-- A buffer for two messages, with one in it.
abbrev router_with : List String → MessageRouter String String
router_with msgs = record { buffer = msgs; buffer_size = 2; err_ch = none }

append_all-keep_last_example :
    append_all ("b" ∷ "c" ∷ []) (router_with ("a" ∷ []))
    ≡ some (router_with (keep_last 2 (("a" ∷ []) ++ "b" ∷ "c" ∷ [])))
append_all-keep_last_example =
    append_all-keep_last 2 ("b" ∷ "c" ∷ []) ("a" ∷ []) none (omega arith) (omega arith)
