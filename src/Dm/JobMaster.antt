-- ===== src/Dm/JobMaster.antt =====
-- jobmaster/dm/dm_jobmaster.go: the job master, over its managers. A handler runs from its start to its
-- end, as the framework calls them one after the other; what the master, the metastore and the
-- checkpoints answer are arguments. The handles that the framework passes are of workers that the master's
-- manager still has, so that asking one for its status does not panic.
pub mod Init
pub mod Agrees
pub mod Agents
pub mod Reach
pub mod Settles
use microcosm.Base.{
  ℕ, ◌+◌, ◌*◌, String, Bool, true, false, Option, none, some, List, [], ◌∷◌, ◌++◌, Map, insert,
  String_eq, is_some, if◌then◌else◌, Outcome, returns, panics, ◌>>=◌,
}
use microcosm.Worker.Timeouts.{second}
use microcosm.Dm.Ticker.{
  DefaultTicker, new_default_ticker, set_next_check_time, is_due, advance_check_time, after_tick,
}
use microcosm.Dm.Runtime.{
  Job, JobCfg, mode_all, TaskStage, stage_finished, same_stage, TaskStatus, new_offline_status,
  unmarshal_task_status, WorkerStatus, WorkerStage, worker_online, worker_offline, worker_finished,
  new_worker_status, DmError, from_outside,
}
use microcosm.Dm.Store.{Codec, Fault, TomlStore, Got, get}
use microcosm.Dm.TaskManager.{
  OperateType, create, delete_op, operate_task as operate_job, update_task_status, new_tasks_of,
  tick_impl as check_tasks,
}
use microcosm.Dm.WorkerManager.{
  CheckpointAgent, Loop, update_worker_status, new_statuses, remove_worker_status_by_worker_id,
  tick_impl as check_workers,
}
use microcosm.Dm.MessageAgent.{
  Outside, MessageAgent, update_worker_handle, new_message_agent, worker_agent, operate_task,
}

-- lib.WorkerHandle, with what its status' bytes decode to.
pub record WorkerHandle : Type 0 where
  pub id : String
  pub is_tombstone : Bool
  pub ext : Option TaskStatus

pub record JobMaster (M : Type 0) : Type 0 where
  pub store : TomlStore
  pub tasks : Map String TaskStatus
  pub workers : Map String WorkerStatus
  pub agent : MessageAgent M
  pub task_check : DefaultTicker
  pub worker_check : DefaultTicker

abbrev pub normal_interval : ℕ
normal_interval = 30 * second

abbrev pub error_interval : ℕ
error_interval = 10 * second

pub record InitStatus : Type 0 where
  pub task_statuses : List TaskStatus
  pub worker_statuses : List WorkerStatus
  pub senders : Map String String

abbrev pub status_of : TaskStatus → String → WorkerStage → WorkerStatus
status_of s id stage = new_worker_status s.task s.unit id stage

-- A turn of getInitStatus for a handle that is no tombstone.
abbrev pub add_status : String → InitStatus → Option TaskStatus → Option InitStatus
add_status id acc none = none
add_status id acc (some s) = some (record {
  task_statuses = acc.task_statuses ++ s ∷ [];
  worker_statuses = acc.worker_statuses ++ status_of s id worker_online ∷ [];
  senders = insert s.task id acc.senders;
})

abbrev pub at_handle : WorkerHandle → InitStatus → Option InitStatus
at_handle h acc =
    if h.is_tombstone then some acc else add_status h.id acc (unmarshal_task_status h.ext)

unfoldable pub get_init_status : List WorkerHandle → InitStatus → Option InitStatus
get_init_status [] acc = some acc
get_init_status (h ∷ rest) acc = elim (at_handle h acc) [
  | none ↦ none
  | some acc' ↦ get_init_status rest acc'
]

abbrev pub no_status : InitStatus
no_status = record { task_statuses = []; worker_statuses = []; senders = [] }

-- worker.Unwrap, which is nil for a tombstone.
abbrev pub unwrap_worker : WorkerHandle → Option String
unwrap_worker worker = if worker.is_tombstone then none else some worker.id

module _ {M : Type 0} where
  abbrev pub components : ℕ → Option String → M → InitStatus → JobMaster M
  components now kept m init = record {
    store = record { state = none; kept = kept };
    tasks = new_tasks_of init.task_statuses [];
    workers = new_statuses init.worker_statuses [];
    agent = new_message_agent init.senders m;
    task_check = new_default_ticker now normal_interval error_interval;
    worker_check = new_default_ticker now normal_interval error_interval;
  }

  -- createComponents, of the workers of GetWorkers and the job's value in the metastore.
  unfoldable pub create_components :
      ℕ → Option String → M → List WorkerHandle → Option (JobMaster M)
  create_components now kept m handles = elim (get_init_status handles no_status) [
    | none ↦ none
    | some init ↦ some (components now kept m init)
  ]

  -- The deferred call of OperateTask of the task manager.
  abbrev pub when_operated :
      ℕ → JobMaster M → TomlStore × Option DmError → JobMaster M × Option DmError
  when_operated now jm (store, none) =
      (record jm { store = store; task_check = set_next_check_time now jm.task_check }, none)
  when_operated now jm (store, some x) = (record jm { store = store }, some x)

  unfoldable pub operate :
      Codec
      → Fault
      → Fault
      → Job
      → ℕ
      → OperateType
      → JobCfg
      → List String
      → JobMaster M
      → JobMaster M × Option DmError
  operate codec reading writing half now op cfg tasks jm =
      when_operated now jm (operate_job codec reading writing half op cfg tasks jm.store)

  -- InitImpl after createComponents: the pre-check and the checkpoints may fail.
  unfoldable pub init_impl :
      Codec → Fault → Fault → Fault → ℕ → JobCfg → JobMaster M → JobMaster M × Option DmError
  init_impl codec checking checkpoints writing now cfg jm = elim checking [
    | some e ↦ (jm, some e)
    | none ↦ elim checkpoints [
      | some e ↦ (jm, some e)
      | none ↦ operate codec none writing [] now create cfg [] jm
    ]
  ]

  abbrev pub recheck_workers : ℕ → JobMaster M → JobMaster M
  recheck_workers now jm = record jm { worker_check = set_next_check_time now jm.worker_check }

  -- OnWorkerDispatched, with whether there is an error.
  unfoldable pub on_worker_dispatched : ℕ → WorkerHandle → Bool → JobMaster M → JobMaster M
  on_worker_dispatched now worker failed jm =
      if failed
      then recheck_workers now
          (record jm { workers = remove_worker_status_by_worker_id worker.id jm.workers })
      else jm

  abbrev pub update_worker : TaskStatus → WorkerStatus → Option String → JobMaster M → JobMaster M
  update_worker s w sender jm = record jm {
    tasks = update_task_status s jm.tasks;
    workers = update_worker_status w jm.workers;
    agent = update_worker_handle s.task sender jm.agent;
  }

  abbrev pub online_with :
      WorkerHandle → JobMaster M → Option TaskStatus → JobMaster M × Option DmError
  online_with worker jm none = (jm, some (from_outside "unmarshal"))
  online_with worker jm (some s) =
      (update_worker s (status_of s worker.id worker_online) (unwrap_worker worker) jm, none)

  unfoldable pub on_worker_online : WorkerHandle → JobMaster M → JobMaster M × Option DmError
  on_worker_online worker jm = online_with worker jm (unmarshal_task_status worker.ext)

  unfoldable pub on_worker_finished : ℕ → TaskStatus → WorkerHandle → JobMaster M → JobMaster M
  on_worker_finished now s worker jm =
      recheck_workers now (update_worker s (status_of s worker.id worker_finished) none jm)

  abbrev pub lost_worker : ℕ → TaskStatus → WorkerHandle → JobMaster M → JobMaster M
  lost_worker now s worker jm =
      recheck_workers now
        (update_worker (new_offline_status s.task) (status_of s worker.id worker_offline) none jm)

  abbrev pub offline_with :
      ℕ → WorkerHandle → JobMaster M → Option TaskStatus → JobMaster M × Option DmError
  offline_with now worker jm none = (jm, some (from_outside "unmarshal"))
  offline_with now worker jm (some s) = (
    if same_stage s.stage stage_finished
        then on_worker_finished now s worker jm
        else lost_worker now s worker jm,
    none,
  )

  unfoldable pub on_worker_offline : ℕ → WorkerHandle → JobMaster M → JobMaster M × Option DmError
  on_worker_offline now worker jm = offline_with now worker jm (unmarshal_task_status worker.ext)

-- What a check reads: the clock at the guard, at the start, meanwhile and at the end, and the metastore.
pub record Turn : Type 0 where
  pub guard_at : ℕ
  pub start_at : ℕ
  pub check_at : ℕ
  pub end_at : ℕ
  pub reading : Fault
  pub half : Job

module _ {M : Type 0} (codec : Codec) (outside : Outside M) (checkpoint : CheckpointAgent) where
  -- The worker manager's check, with the ticker's bookkeeping.
  unfoldable pub run_workers_check : Turn → JobMaster M → Outcome (JobMaster M)
  run_workers_check t jm =
      let (store, answer) = get codec t.reading t.half jm.store in
      let check = advance_check_time t.start_at jm.worker_check in
      check_workers (worker_agent outside) checkpoint t.check_at answer jm.workers jm.agent >>= λ l.
      returns (record jm {
        store = store;
        workers = l.statuses;
        agent = l.agent_state;
        worker_check = after_tick t.end_at (is_some l.record_error) check;
      })

  unfoldable pub tick_workers : Turn → JobMaster M → Outcome (JobMaster M)
  tick_workers t jm =
      let checked = run_workers_check t jm in
      if is_due t.guard_at jm.worker_check then checked else returns jm

  unfoldable pub run_tasks_check : Turn → JobMaster M → JobMaster M
  run_tasks_check t jm =
      let (store, answer) = get codec t.reading t.half jm.store in
      let check = advance_check_time t.start_at jm.task_check in
      let (tasks, agent, e) = check_tasks (operate_task outside) answer jm.tasks jm.agent in
      record jm {
        store = store;
        tasks = tasks;
        agent = agent;
        task_check = after_tick t.end_at (is_some e) check;
      }

  unfoldable pub tick_tasks : Turn → JobMaster M → JobMaster M
  tick_tasks t jm = if is_due t.guard_at jm.task_check then run_tasks_check t jm else jm

  -- Tick.
  unfoldable pub tick : Turn → Turn → JobMaster M → Outcome (JobMaster M)
  tick t u jm = tick_workers t jm >>= λ jm'. returns (tick_tasks u jm')

  -- The loop of CloseImpl, until its context ends with the last turn: did it see all workers gone?
  unfoldable pub close_loop : List Turn → JobMaster M → Outcome (JobMaster M × Bool)
  close_loop [] jm = returns (jm, false)
  close_loop (t ∷ rest) jm = tick_workers t (recheck_workers t.guard_at jm) >>= λ jm'.
      elim jm'.workers [ [] ↦ returns (jm', true) | _ ∷ _ ↦ close_loop rest jm' ]

  -- CloseImpl.
  unfoldable pub close_impl : Fault → ℕ → List Turn → JobMaster M → Outcome (JobMaster M × Bool)
  close_impl writing now turns jm =
      let (jm', e) =
        operate codec none writing [] now delete_op
          (record { name = ""; task_mode = mode_all; upstreams = [] }) [] jm in
      elim e [ some _ ↦ returns (jm', false) | none ↦ close_loop turns jm' ]
