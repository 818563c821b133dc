-- ===== src/Master/Manager.antt =====
-- lib/master/worker_manager.go and lib/master/events.go: the workers of a master. The entries are
-- shared between the map and the hooks of queued events, so they stand on a heap: the map holds
-- references. A method that holds m.mu is one step; InitAfterRecover, which lets go of it twice, is
-- three. A method that reads the clock takes the time. The queue is a channel of 1024; a sender that
-- finds it full for a second gets an error, so one that waits less is a step after the next Tick.
pub mod Init
pub mod Tick
pub mod Inv
pub mod Heartbeat
pub mod Check
pub mod Recover
pub mod Run
pub mod Handles
pub mod Lease
mod Tests
use microcosm.Base.{
  ℕ, suc, ◌+◌, String, Bool, true, false, ◌||◌, not, Option, none, some, List, [], ◌∷◌, ◌++◌, Map,
  lookup, insert, delete, has, length, ltb, leb, if◌then◌else◌, String_eq, ℕ_eq, Outcome, returns,
  panics, ◌>>=◌,
}
use microcosm.Master.Entry.{
  WorkerEntry, WorkerStatus, StatusCode, EntryState, wait, created, is_wait, is_created, is_offline,
  is_tomb, is_tombstone, is_finished, new_worker_entry, mark_as_tombstone, mark_as_online,
  mark_as_offline, update_status, set_expire_time, set_finished,
}

pub data MasterError : Type 0 where
  too_many_pending_events worker_finish worker_stop context_done : MasterError
  worker_offline : String → MasterError
  other_error : String → MasterError

pub data Handle : Type 0 where
  running : String → String → Handle
  tombstone_of : String → Handle

pub data EventType : Type 0 where
  worker_online_event worker_offline_event worker_status_updated_event
        worker_dispatch_failed_event :
      EventType

-- The three closures that serve as beforeHook, by what they capture, and nil.
pub data BeforeHook : Type 0 where
  no_hook : BeforeHook
  delete_entry : String → BeforeHook
  write_status : ℕ → Option WorkerStatus → BeforeHook
  bury : ℕ → BeforeHook

pub record MasterEvent : Type 0 where
  pub tp : EventType
  pub handle : Handle
  pub worker_id : String
  pub err : Option MasterError
  pub before_hook : BeforeHook

pub data ManagerState : Type 0 where
  ready loading_meta waiting_heartbeat : ManagerState

abbrev pub is_ready : ManagerState → Bool
is_ready ready = true
is_ready _ = false

abbrev pub is_loading : ManagerState → Bool
is_loading loading_meta = true
is_loading _ = false

abbrev pub is_waiting : ManagerState → Bool
is_waiting waiting_heartbeat = true
is_waiting _ = false

pub record Manager : Type 0 where
  pub heap : Map ℕ WorkerEntry
  pub next_ref : ℕ
  pub worker_entries : Map String ℕ
  pub state : ManagerState
  pub epoch : ℕ
  pub event_queue : List MasterEvent
  pub err_center : Option MasterError
  pub all_workers_ready : Bool  -- closed
  pub worker_timeout : ℕ
  pub worker_timeout_graceful : ℕ

abbrev pub event_queue_size : ℕ
event_queue_size = 1024

unfoldable pub new_worker_manager : ℕ → Bool → ℕ → ℕ → Manager
new_worker_manager epoch is_init timeout graceful = record {
  heap = [];
  next_ref = 0;
  worker_entries = [];
  state = if is_init then ready else loading_meta;
  epoch = epoch;
  event_queue = [];
  err_center = none;
  all_workers_ready = false;
  worker_timeout = timeout;
  worker_timeout_graceful = graceful;
}

-- A read through a reference.
unfoldable pub load : ℕ → Manager → Outcome WorkerEntry
load r m = elim (lookup r m.heap) [ none ↦ panics | some e ↦ returns e ]

unfoldable pub store : ℕ → WorkerEntry → Manager → Manager
store r e m = record m { heap = insert r e m.heap }

-- `m.workerEntries[id] = &entry`.
unfoldable pub alloc : String → WorkerEntry → Manager → Manager
alloc id e m = record m {
  heap = insert m.next_ref e m.heap;
  next_ref = suc m.next_ref;
  worker_entries = insert id m.next_ref m.worker_entries;
}

-- errctx.ErrCenter.OnError: the first error stays.
unfoldable pub on_error : Option MasterError → Manager → Manager
on_error e m = elim m.err_center [ none ↦ record m { err_center = e } | some _ ↦ m ]

unfoldable pub enqueue_event : MasterEvent → Manager → Manager × Option MasterError
enqueue_event event m =
    if ltb (length m.event_queue) event_queue_size
    then (record m { event_queue = m.event_queue ++ event ∷ [] }, none)
    else (m, some too_many_pending_events)

-- Enqueue, and report a full queue to the error center.
unfoldable pub enqueue_or_report : MasterEvent → Manager → Manager
enqueue_or_report event m = let (m', e) = enqueue_event event m in on_error e m'

abbrev pub next_expire_time : ℕ → Manager → ℕ
next_expire_time now m = now + (m.worker_timeout + m.worker_timeout_graceful)

unfoldable pub check_master_epoch_match : ℕ → Manager → Outcome Bool
check_master_epoch_match msg_epoch m =
    if ltb m.epoch msg_epoch then panics else returns (not (ltb msg_epoch m.epoch))

pub record HeartbeatPing : Type 0 where
  pub from_worker_id : String
  pub epoch : ℕ
  pub is_finished : Bool

-- The loop that looks for a worker from which no heartbeat came.
unfoldable pub all_ready : Map String ℕ → Manager → Outcome Bool
all_ready [] m = returns true
all_ready ((id, r) ∷ rest) m = do
  let others = all_ready rest m
  e ← load r m
  if is_wait e.state then returns false else others

-- `close(m.allWorkersReady)`: a channel cannot be closed twice.
unfoldable pub close_all_workers_ready : Manager → Outcome Manager
close_all_workers_ready m =
    if m.all_workers_ready then panics else returns (record m { all_workers_ready = true })

unfoldable pub discover : ℕ → ℕ → String → Manager → Outcome Manager
discover now r from_node m = do
  e ← load r m
  if not (is_wait e.state) then returns m else do
    online ← mark_as_online from_node (next_expire_time now m) e
    let m' = store r online m
    everyone ← all_ready m'.worker_entries m'
    if everyone then close_all_workers_ready m' else returns m'

unfoldable pub first_heartbeat : ℕ → String → ℕ → String → Manager → Outcome Manager
first_heartbeat now id r from_node m = do
  e ← load r m
  if not (is_created e.state) then returns m else do
    online ← mark_as_online from_node (next_expire_time now m) e
    returns (
        enqueue_or_report
          (record {
            tp = worker_online_event;
            handle = running id from_node;
            worker_id = id;
            err = none;
            before_hook = no_hook;
          })
          (store r online m))

abbrev pub touched : ℕ → Bool → WorkerEntry → WorkerEntry
touched expire_at finished e = set_expire_time expire_at (if finished then set_finished e else e)

unfoldable pub handle_heartbeat : ℕ → HeartbeatPing → String → Manager → Outcome Manager
handle_heartbeat now msg from_node m = if is_loading m.state then returns m else do
  matches ← check_master_epoch_match msg.epoch m
  if not matches then returns m else elim (lookup msg.from_worker_id m.worker_entries) [
    | none ↦ returns m
    | some r ↦ do
      e ← load r m
      let m' = store r (touched (next_expire_time now m) msg.is_finished e) m
      if is_waiting m.state
          then discover now r from_node m'
          else first_heartbeat now msg.from_worker_id r from_node m'
  ]

abbrev created_status : WorkerStatus
created_status = record { code = StatusCode.created; error_message = ""; ext_bytes = "" }

unfoldable pub before_starting_worker : ℕ → String → String → Manager → Outcome Manager
before_starting_worker now worker_id executor_id m =
    if has worker_id m.worker_entries
    then panics
    else returns (
        alloc worker_id
          (new_worker_entry worker_id executor_id (next_expire_time now m) created
            (some created_status))
          m)

unfoldable pub abort_creating_worker : String → Option MasterError → Manager → Manager
abort_creating_worker worker_id err_in m =
    enqueue_or_report
      (record {
        tp = worker_dispatch_failed_event;
        handle = tombstone_of worker_id;
        worker_id = worker_id;
        err = err_in;
        before_hook = delete_entry worker_id;
      })
      m

pub record WorkerStatusMessage : Type 0 where
  pub worker : String
  pub master_epoch : ℕ
  pub status : Option WorkerStatus

unfoldable pub on_worker_status_update_message : WorkerStatusMessage → Manager → Outcome Manager
on_worker_status_update_message msg m = do
  matches ← check_master_epoch_match msg.master_epoch m
  if not matches then returns m else elim (lookup msg.worker m.worker_entries) [
    | none ↦ returns m
    | some r ↦ do
      e ← load r m
      returns (
          enqueue_or_report
            (record {
              tp = worker_status_updated_event;
              handle = running msg.worker e.executor_id;
              worker_id = msg.worker;
              err = none;
              before_hook = write_status r msg.status;
            })
            m)
  ]

unfoldable pub get_workers_from : Map String ℕ → Manager → Outcome (Map String Handle)
get_workers_from [] m = returns []
get_workers_from ((id, r) ∷ rest) m = do
  e ← load r m
  handles ← get_workers_from rest m
  returns ((id, if is_tombstone e then tombstone_of id else running id e.executor_id) ∷ handles)

unfoldable pub get_workers : Manager → Outcome (Map String Handle)
get_workers m = get_workers_from m.worker_entries m

unfoldable pub is_initialized : Manager → Bool
is_initialized m = is_ready m.state

abbrev pub code_error : String → StatusCode → MasterError
code_error id StatusCode.finished = worker_finish
code_error id StatusCode.stopped = worker_stop
code_error id _ = worker_offline id

abbrev pub offline_error : String → Option WorkerStatus → Option MasterError
offline_error id none = none
offline_error id (some s) = some (code_error id s.code)

abbrev pub offline_event : String → ℕ → WorkerEntry → MasterEvent
offline_event id r e = record {
  tp = worker_offline_event;
  handle = tombstone_of id;
  worker_id = id;
  err = offline_error id e.status;
  before_hook = bury r;
}

-- Has the lease ended, or did the worker say that it has finished?
abbrev pub should_go_offline : ℕ → WorkerEntry → Bool
should_go_offline now e = ltb e.expire_at now || is_finished e

-- The body of the loop of checkWorkerEntriesOnce.
unfoldable pub check_entry : ℕ → String → ℕ → Manager → Outcome (Manager × Option MasterError)
check_entry now id r m = do
  e ← load r m
  if is_offline e.state || is_tomb e.state || not (should_go_offline now e)
      then returns (m, none)
      else do
        gone ← mark_as_offline e
        returns (enqueue_event (offline_event id r gone) (store r gone m))

unfoldable pub check_from : ℕ → Map String ℕ → Manager → Outcome (Manager × Option MasterError)
check_from now [] m = returns (m, none)
check_from now ((id, r) ∷ rest) m = check_entry now id r m >>= λ (m', e). elim e [
  | none ↦ check_from now rest m'
  | some err ↦ returns (m', some err)
]

unfoldable pub check_worker_entries_once : ℕ → Manager → Outcome (Manager × Option MasterError)
check_worker_entries_once now m =
    if not (is_ready m.state) then returns (m, none) else check_from now m.worker_entries m

-- Callable with m.mu free only, from CleanTombstone.
unfoldable pub remove_tombstone_entry : String → Manager → Outcome Manager
remove_tombstone_entry id m = elim (lookup id m.worker_entries) [
  | none ↦ returns m
  | some r ↦ do
    e ← load r m
    if not (is_tombstone e)
        then panics
        else returns (record m { worker_entries = delete id m.worker_entries })
]
