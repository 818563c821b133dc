-- ===== src/Master/Creation.antt =====
-- CreateWorker of lib/master.go, and DispatchTask of client/task_dispatcher.go that it calls. What the
-- quota's wait, the scheduler, the executor and the encoding of a configuration answer are arguments. A
-- round of the retries of PreDispatchTask is an entry of a list, which ends where the context does.
pub mod Ends
mod Tests
use microcosm.Base.{
  ℕ, ◌+◌, ◌-◌, String, Bool, true, false, ◌||◌, Option, none, some, List, [], ◌∷◌, eqb,
  if◌then◌else◌, Outcome, returns, panics, ◌>>=◌,
}
use microcosm.Master.Manager.{
  Manager, MasterError, other_error, before_starting_worker, abort_creating_worker,
}

-- What a call of the executor answers: a response, an error with a code of gRPC, or any other error.
pub data Code : Type 0 where
  aborted already_exists not_found other_code : Code

pub data Reply : Type 0 where
  response : Reply
  status_error : Code → String → Reply
  plain_error : String → Reply

pub data PreDispatch : Type 0 where
  pre_dispatched : PreDispatch
  should_retry give_up : String → PreDispatch

unfoldable pub pre_dispatch_task_once : Reply → Outcome PreDispatch
pre_dispatch_task_once response = returns pre_dispatched
pre_dispatch_task_once (plain_error e) = returns (give_up e)
pre_dispatch_task_once (status_error aborted e) = returns (give_up e)
pre_dispatch_task_once (status_error already_exists e) = panics
pre_dispatch_task_once (status_error _ e) = returns (should_retry e)

-- Whether the context is done before the call, or while it would wait, or its deadline would be.
pub record Round : Type 0 where
  pub done : Bool
  pub reply : Reply
  pub no_time_left : Bool

-- `none` is success.
unfoldable pub pre_dispatch_task_with_retry : List Round → Outcome (Option String)
pre_dispatch_task_with_retry [] = returns (some "context done")
pre_dispatch_task_with_retry (round ∷ rounds) =
    let later = pre_dispatch_task_with_retry rounds in
    if round.done
    then returns (some "context done")
    else pre_dispatch_task_once round.reply >>= λ answer. elim answer [
      | pre_dispatched ↦ returns none
      | give_up e ↦ returns (some e)
      | should_retry e ↦ if round.no_time_left then returns (some "no time left") else later
    ]

-- Whether the failure is guaranteed, with the error.
unfoldable pub confirm_dispatch_task : Reply → Option (Bool × String)
confirm_dispatch_task response = none
confirm_dispatch_task (plain_error e) = some (false, e)
confirm_dispatch_task (status_error aborted e) = some (true, e)
confirm_dispatch_task (status_error not_found e) = some (true, e)
confirm_dispatch_task (status_error _ e) = some (false, e)

abbrev pub confirmed :
    (String → Manager → Manager) → Manager → Option (Bool × String) → Manager × Option String
confirmed abort m none = (m, none)
confirmed abort m (some (true, e)) = (abort e m, some e)
confirmed abort m (some (false, e)) = (m, none)

abbrev pub started :
    (Manager → Outcome Manager)
    → (String → Manager → Manager)
    → Reply
    → Manager
    → Option String
    → Outcome (Manager × Option String)
started start abort confirm m (some e) = returns (m, some e)
started start abort confirm m none =
    start m >>= λ m'. returns (confirmed abort m' (confirm_dispatch_task confirm))

-- DispatchTask; `start` and `abort` are its callbacks.
unfoldable pub dispatch_task :
    (Manager → Outcome Manager)
    → (String → Manager → Manager)
    → List Round
    → Reply
    → Manager
    → Outcome (Manager × Option String)
dispatch_task start abort rounds confirm m =
    pre_dispatch_task_with_retry rounds >>= started start abort confirm m

-- What the goroutine of CreateWorker meets.
pub record Attempt : Type 0 where
  pub now : ℕ
  pub schedule_error : Option String
  pub executor_id : String
  pub add_executor_error : Option String
  pub rounds : List Round
  pub confirm : Reply

abbrev pub abort_with : String → String → Manager → Manager
abort_with worker_id e m = abort_creating_worker worker_id (some (other_error e)) m

-- The goroutine, up to the release of the quota.
unfoldable pub dispatch_worker : String → Attempt → Manager → Outcome Manager
dispatch_worker worker_id a m = elim a.schedule_error [
  | some e ↦ returns (abort_with worker_id e m)
  | none ↦ elim a.add_executor_error [
    | some e ↦ returns (abort_with worker_id e m)
    | none ↦
        dispatch_task (before_starting_worker a.now worker_id a.executor_id) (abort_with worker_id)
          a.rounds a.confirm m
        >>= λ (m', e). returns m'
  ]
]

-- The part of the base master that creates workers.
pub record BaseMaster : Type 0 where
  pub create_worker_quota : ℕ
  pub worker_manager : Manager

-- The configuration of a job master is its metadata, of which the id counts here.
pub data WorkerConfig : Type 0 where
  master_meta : String → WorkerConfig
  user_config : WorkerConfig

pub data CreateError : Type 0 where
  master_concurrency_exceeded master_invalid_meta encode_failed : CreateError

-- CvsJobMaster, FakeJobMaster and DMJobMaster.
abbrev pub is_job_master : ℕ → Bool
is_job_master tp = eqb tp 2 || eqb tp 3 || eqb tp 4

pub data Prepared : Type 0 where
  prepared : String → Prepared
  unprepared : CreateError → Prepared

-- `encodes` tells whether a user's configuration can be encoded; the worker's id is what matters here.
unfoldable pub prepare_worker_config : ℕ → WorkerConfig → Bool → String → Prepared
prepare_worker_config tp (master_meta id) encodes new_id =
    if is_job_master tp
    then prepared id
    else if encodes
    then prepared new_id
    else unprepared encode_failed
prepare_worker_config tp user_config encodes new_id =
    if is_job_master tp
    then unprepared master_invalid_meta
    else if encodes
    then prepared new_id
    else unprepared encode_failed

-- CreateWorker until it returns.
unfoldable pub create_worker : ℕ → WorkerConfig → Bool → String → BaseMaster → BaseMaster × Prepared
create_worker tp config encodes new_id b =
    if eqb b.create_worker_quota 0 then (b, unprepared master_concurrency_exceeded) else (
      record b { create_worker_quota = b.create_worker_quota - 1 },
      prepare_worker_config tp config encodes new_id,
    )

-- Its goroutine.
unfoldable pub finish_worker : String → Attempt → BaseMaster → Outcome BaseMaster
finish_worker worker_id a b = dispatch_worker worker_id a b.worker_manager >>= λ m.
    returns (record b { create_worker_quota = b.create_worker_quota + 1; worker_manager = m })

-- A creation from its call to the end of its goroutine, which is started if there is no error.
abbrev pub follow : Attempt → BaseMaster × Prepared → Outcome BaseMaster
follow a (b, prepared id) = finish_worker id a b
follow a (b, unprepared e) = returns b
