-- ===== src/Master/Manager/Tests.antt =====
-- Runs of a worker entry and of the worker manager.
use microcosm.Base.{
  ℕ, String, true, false, Option, none, some, List, [], ◌∷◌, Map, ◌≡◌, ◌⊎◌, refl, arith, lookup,
  String_eq, ℕ_eq, returns, panics, Outcome, Returns, ReturnsOr, ReturnsOr-bind,
}
use microcosm.Master.Manager.Handles.{handle_status, clean_tombstone, was_removed}
use microcosm.Master.Entry.{
  WorkerEntry, WorkerStatus, StatusCode, EntryState, wait, created, offline, tombstone,
  mark_as_offline, is_tombstone,
}
use microcosm.Master.Entry.Laws.{goes_offline, Arrow, Move-Arrow}
use microcosm.Master.Manager.{
  Manager, Handle, running, tombstone_of, MasterError, ready, loading_meta, waiting_heartbeat,
  HeartbeatPing, MasterEvent, EventType, handle_heartbeat, check_entry, check_worker_entries_once,
  remove_tombstone_entry,
}
use microcosm.Master.Manager.Init.{init_resume}
use microcosm.Master.Manager.Tick.{Callbacks, call_back}
use microcosm.Master.Manager.Inv.{Inv}
use microcosm.Master.Manager.Check.{overdue_at, AllSettled, check_worker_entries_once_settles}
use microcosm.Master.Manager.Recover.{AllResolved, init_resume_resolves}
use microcosm.Master.Manager.Run.{
  Keep, CallbackPanics, OrPanics, remove_tombstone_entry-OrPanics, Call, heartbeats, checks, ticks,
  run, AllAllowed, run-Inv,
}
use microcosm.Master.Manager.Lease.{heartbeat_keeps_alive}

abbrev entry_of : EntryState → WorkerEntry
entry_of s = record {
  id = "w";
  executor_id = "e";
  expire_at = 10;
  state = s;
  received_finish = false;
  status = none;
}

Move-Arrow_example : (offline ≡ created) ⊎ Arrow created offline
unfolding mark_as_offline
Move-Arrow_example =
    Move-Arrow {e = entry_of created} {f = entry_of offline} refl (goes_offline refl)

-- A ready manager with one worker.
abbrev one_worker : EntryState → Manager
one_worker s = record {
  heap = (0, entry_of s) ∷ [];
  next_ref = 1;
  worker_entries = ("w", 0) ∷ [];
  state = ready;
  epoch = 2;
  event_queue = [];
  err_center = none;
  all_workers_ready = false;
  worker_timeout = 5;
  worker_timeout_graceful = 5;
}

abbrev starting : Manager
starting = one_worker created

starting-Inv : Inv starting
unfolding lookup
starting-Inv = record {
  below = (omega arith, tt);
  live = (refl, tt);
  awake = λ s. (refl, tt);
  hooks = tt;
  quiet = λ n. absurd (cc);
  loaded = λ n. absurd (cc);
}

buried-Inv : Inv (one_worker tombstone)
unfolding lookup
buried-Inv = record {
  below = (omega arith, tt);
  live = (refl, tt);
  awake = λ s. (refl, tt);
  hooks = tt;
  quiet = λ n. absurd (cc);
  loaded = λ n. absurd (cc);
}

abbrev recovering : Manager
recovering = record (one_worker wait) { state = waiting_heartbeat }

recovering-Inv : Inv recovering
unfolding lookup
recovering-Inv = record {
  below = (omega arith, tt);
  live = (refl, tt);
  awake = λ s. absurd (cc);
  hooks = tt;
  quiet = λ n. tt;
  loaded = λ n. absurd (cc);
}

abbrev unloaded : Manager
unloaded = record starting { heap = []; next_ref = 0; worker_entries = []; state = loading_meta }

unloaded-Inv : Inv unloaded
unloaded-Inv = record {
  below = tt;
  live = tt;
  awake = λ s. absurd (cc);
  hooks = tt;
  quiet = λ n. tt;
  loaded = λ n. absurd (cc);
}

abbrev ping : HeartbeatPing
ping = record { from_worker_id = "w"; epoch = 2; is_finished = false }

-- The callbacks of the job manager, as far as they touch its worker manager: a worker that has gone
-- offline is cleaned away, and an update reads the status. Both panic on a handle that does not fit.
abbrev on_offline : Handle → Manager → Outcome (Manager × Option MasterError)
on_offline (running id executor) m = panics
on_offline (tombstone_of id) m = clean_tombstone was_removed id m

abbrev answered : Outcome (Option WorkerStatus) → Manager → Outcome (Manager × Option MasterError)
answered (returns s) m = returns (m, none)
answered panics m = panics

abbrev job_callbacks : Callbacks
job_callbacks = record {
  on_worker_onlined = λ h m. returns (m, none);
  on_worker_offlined = λ h e m. on_offline h m;
  on_worker_status_updated = λ h m. answered (handle_status h m) m;
  on_worker_dispatched = λ h e m. returns (m, none);
}

on_offline-Inv : (h : Handle) (m : Manager) → Inv m → OrPanics (on_offline h m) (λ (m', x). Inv m')
unfolding clean_tombstone
on_offline-Inv (running id executor) m v = tt
on_offline-Inv (tombstone_of id) m v =
    ReturnsOr-bind Unit Inv (λ (m', x). Inv m') (remove_tombstone_entry id m) _
      (remove_tombstone_entry-OrPanics id m v) (λ m' q v'. v')

any_status :
    (o : Outcome (Option WorkerStatus)) (m : Manager)
    → Inv m
    → OrPanics (answered o m) (λ (m', x). Inv m')
any_status (returns s) m v = v
any_status panics m v = tt

job_callbacks-Keep : Keep job_callbacks
job_callbacks-Keep = record { keeps = answers }
  where
    answers :
        (tp : EventType) (ev : MasterEvent) (m : Manager)
        → Inv m
        → OrPanics (call_back job_callbacks tp ev m) (λ (m', x). Inv m')
    answers EventType.worker_online_event ev m v = v
    answers EventType.worker_offline_event ev m v = on_offline-Inv ev.handle m v
    answers EventType.worker_status_updated_event ev m v =
        any_status (handle_status ev.handle m) m v
    answers EventType.worker_dispatch_failed_event ev m v = v

-- A worker comes online, loses its lease, and is buried.
abbrev life : List Call
life = heartbeats 3 ping "node" ∷ ticks 4 ∷ checks 50 ∷ ticks 4 ∷ []

life-AllAllowed : AllAllowed job_callbacks life starting
life-AllAllowed = (omega arith, λ a p. (tt, λ b q. (tt, λ c r. (tt, λ d s. tt))))

run-Inv_example : ReturnsOr (CallbackPanics job_callbacks) (run job_callbacks life starting) Inv
run-Inv_example =
    run-Inv job_callbacks life starting job_callbacks-Keep life-AllAllowed starting-Inv

check_worker_entries_once_settles_example :
    Returns (check_worker_entries_once 50 starting) (λ (m', x).
      Inv m'
      × (m'.worker_entries ≡ starting.worker_entries)
      × ((r : ℕ)
          → overdue_at 50 starting.heap r ≡ false
          → lookup r m'.heap ≡ lookup r starting.heap)
      × (x ≡ none → AllSettled 50 m'.heap m'.worker_entries))
check_worker_entries_once_settles_example =
    check_worker_entries_once_settles 50 starting starting-Inv refl

init_resume_resolves_example :
    Returns
      (init_resume recovering)
      (λ m'. Inv m' × (m'.state ≡ ready) × AllResolved m'.heap m'.worker_entries)
init_resume_resolves_example = init_resume_resolves recovering recovering-Inv refl

abbrev persisted : Map String WorkerStatus
persisted =
    ("w", record { code = StatusCode.normal; error_message = ""; ext_bytes = "" })
    ∷ ("done", record { code = StatusCode.finished; error_message = ""; ext_bytes = "" })
    ∷ []

tomb_there :
    (r : ℕ) (e : WorkerEntry)
    → lookup "w" (one_worker tombstone).worker_entries ≡ some r
    → lookup r (one_worker tombstone).heap ≡ some e
    → is_tombstone e ≡ true
unfolding lookup
tomb_there r e p q = ground arith

heartbeat_keeps_alive_example :
    Returns
      (handle_heartbeat 3 ping "node" starting)
      (λ m'. check_entry 13 "w" 0 m' ≡ returns (m', none))
unfolding lookup
heartbeat_keeps_alive_example =
    heartbeat_keeps_alive 3 ping "node" starting 0 (entry_of created) refl refl refl refl 13 refl
      refl (omega arith)
