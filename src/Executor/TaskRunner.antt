-- ===== src/Executor/TaskRunner.antt =====
-- executor/worker/task_runner.go and internal/runnables.go: the tasks of an executor. What a task's Init,
-- Poll and Close do, and when its goroutine goes on, is up to the steps that are taken. onNewTask holds
-- cancelMu from where it looks at canceled, and is one step; a wait for the semaphore that lasts is a
-- later step, and one that times out fails. A panic that nothing recovers ends the program.
pub mod Tasks
pub mod Sound
pub mod Run
mod Tests
use microcosm.Base.{
  ℕ, suc, ◌+◌, ◌-◌, String, Bool, true, false, Option, none, some, List, [], ◌∷◌, ◌++◌, Map, lookup,
  insert, delete, has, length, String_eq, ltb, eqb, if◌then◌else◌, Outcome, returns, panics,
}

pub data RunnableStatus : Type 0 where
  task_submitted task_running task_closing : RunnableStatus

-- Where the goroutine of a task is: in Init, in EventLoop, past them, or past OnStopped.
pub data Stage : Type 0 where
  in_init in_event_loop ended stopped : Stage

pub record TaskEntry : Type 0 where
  pub status : RunnableStatus
  pub stage : Stage
  pub cancelled : Bool

-- `free` is what is left of initQuotaSema; `stopping` has the tasks of the goroutines that are past
-- OnStopped and have yet to take their task off the map, and `leaving` counts those that have done so and
-- not yet counted themselves off.
pub record TaskRunner : Type 0 where
  pub in_queue : List String
  pub in_queue_size : ℕ
  pub free : ℕ
  pub tasks : Map String TaskEntry
  pub canceled : Bool
  pub task_count : ℕ
  pub stopping : Map {0, 0} String Unit
  pub leaving : ℕ

pub data RunnerError : Type 0 where
  runtime_incoming_queue_full runtime_init_queuing_timeout runtime_closed : RunnerError
  runtime_duplicate_task_id : String → RunnerError

unfoldable pub new_task_runner : ℕ → ℕ → TaskRunner
new_task_runner in_queue_size init_concurrency = record {
  in_queue = [];
  in_queue_size = in_queue_size;
  free = init_concurrency;
  tasks = [];
  canceled = false;
  task_count = 0;
  stopping = [];
  leaving = 0;
}

unfoldable pub add_wrapped_task : String → TaskRunner → TaskRunner × Option RunnerError
add_wrapped_task id r =
    if ltb (length r.in_queue) r.in_queue_size
    then (record r { in_queue = r.in_queue ++ id ∷ [] }, none)
    else (r, some runtime_incoming_queue_full)

unfoldable pub acquire : TaskRunner → Option TaskRunner
acquire r = if eqb r.free 0 then none else some (record r { free = r.free - 1 })

unfoldable pub release : TaskRunner → TaskRunner
release r = record r { free = r.free + 1 }

abbrev pub new_entry : TaskEntry
new_entry = record { status = task_submitted; stage = in_init; cancelled = false }

-- From LoadOrStore on.
unfoldable pub start_task : String → TaskRunner → TaskRunner × Option RunnerError
start_task id r =
    if has id r.tasks
    then (release r, some (runtime_duplicate_task_id id))
    else (record r { tasks = insert id new_entry r.tasks; task_count = r.task_count + 1 }, none)

unfoldable pub on_new_task : String → TaskRunner → TaskRunner × Option RunnerError
on_new_task id r = elim (acquire r) [
  | none ↦ (r, some runtime_init_queuing_timeout)
  | some r' ↦ if r'.canceled then (release r', some runtime_closed) else start_task id r'
]

-- A round of Run; a task that cannot be launched is only logged.
unfoldable pub run_once : TaskRunner → TaskRunner
run_once r = elim r.in_queue [
  | [] ↦ r
  | id ∷ rest ↦ (on_new_task id (record r { in_queue = rest })).0
]

-- RunnableContainer.OnInitialized.
abbrev pub on_initialized : TaskEntry → Outcome TaskEntry
on_initialized e = elim e.status [
  | task_submitted ↦ returns (record e { status = task_running; stage = in_event_loop })
  | _ ↦ panics
]

-- The panic of OnInitialized is recovered, as one of Init is: it ends the task like an error.
abbrev pub after_init : Bool → TaskEntry → TaskEntry
after_init true e = elim (on_initialized e) [
  | returns e' ↦ e'
  | panics ↦ record e { status = task_running; stage = ended }
]
after_init false e = record e { stage = ended }

-- runInit, with whether Init gives no error; then its quota is released.
unfoldable pub init_ends : String → Bool → TaskRunner → TaskRunner
init_ends id ok r = elim (lookup id r.tasks) [
  | none ↦ r
  | some e ↦ elim e.stage [
    | in_init ↦ release (record r { tasks = insert id (after_init ok e) r.tasks })
    | _ ↦ r
  ]
]

-- What EventLoop comes to: an error of Poll or of the context, or a panic of Poll.
abbrev pub loop_ends : Bool → String → TaskEntry → TaskRunner → Outcome TaskRunner
loop_ends true id e r = panics
loop_ends false id e r =
    returns (record r { tasks = insert id (record e { stage = ended }) r.tasks })

unfoldable pub event_loop_ends : String → Bool → TaskRunner → Outcome TaskRunner
event_loop_ends id poll_panics r = elim (lookup id r.tasks) [
  | none ↦ returns r
  | some e ↦ elim e.stage [ in_event_loop ↦ loop_ends poll_panics id e r | _ ↦ returns r ]
]

-- RunnableContainer.OnStopped.
abbrev pub on_stopped : TaskEntry → Outcome TaskEntry
on_stopped e = elim e.status [
  | task_closing ↦ panics
  | _ ↦ returns (record e { status = task_closing; stage = stopped })
]

abbrev pub close_ends : Bool → String → TaskEntry → TaskRunner → Outcome TaskRunner
close_ends true id e r = panics
close_ends false id e r = elim (on_stopped e) [
  | panics ↦ panics
  | returns e' ↦
      returns (record r { tasks = insert id e' r.tasks; stopping = insert id tt r.stopping })
]

-- The deferred closing of a task whose Init or EventLoop has ended, with OnStopped.
unfoldable pub close_task : String → Bool → TaskRunner → Outcome TaskRunner
close_task id close_panics r = elim (lookup id r.tasks) [
  | none ↦ returns r
  | some e ↦ elim e.stage [ ended ↦ close_ends close_panics id e r | _ ↦ returns r ]
]

-- LoadAndDelete, whose goroutine is past OnStopped.
unfoldable pub delete_task : String → TaskRunner → Outcome TaskRunner
delete_task id r =
    if has id r.stopping
    then elim (lookup id r.tasks) [
      | none ↦ panics
      | some _ ↦ returns (record r {
        tasks = delete id r.tasks;
        stopping = delete id r.stopping;
        leaving = r.leaving + 1;
      })
    ]
    else returns r

-- taskCount.Dec of a goroutine that leaves.
unfoldable pub leave : TaskRunner → TaskRunner
leave r =
    if eqb r.leaving 0
    then r
    else record r { leaving = r.leaving - 1; task_count = r.task_count - 1 }

unfoldable pub cancel_tasks : Map String TaskEntry → Map String TaskEntry
cancel_tasks [] = []
cancel_tasks ((id, e) ∷ m) = (id, record e { cancelled = true }) ∷ cancel_tasks m

-- cancelAll up to its wait for the goroutines. A second call would keep the lock for ever.
unfoldable pub cancel_all : TaskRunner → TaskRunner
cancel_all r = if r.canceled then r else record r { canceled = true; tasks = cancel_tasks r.tasks }
