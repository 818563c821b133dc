-- ===== src/ServerMaster/JobManager.antt =====
-- servermaster/jobmanager.go: the job manager over the job machine. CreateWorker of the base master and
-- CleanTombstone of a handle are functions that thread a state of their own; what the metadata client,
-- the encoding of a demo's configuration and the message sender answer are arguments.
pub mod Calls
mod Tests
use microcosm.Base.{
  ℕ, String, Bool, true, false, not, ◌&&◌, ◌||◌, Option, none, some, List, [], ◌∷◌, Map, ◌==◌, ℕ_eq,
  if◌then◌else◌,
}
use microcosm.ServerMaster.JobFsm.{
  JobFsm, MasterMeta, JobHolder, WorkerHandle, Dispatch, dispatched_as, refused, FsmError,
  worker_not_found, JobStatus, QueryJobResponse, new_job_fsm, response, query_job, query_online_job,
  job_dispatched, job_online, job_offline, job_dispatch_failed, iter_pending_jobs,
  iter_wait_ack_jobs,
}

pub data JobManagerError : Type 0 where
  master_concurrency_exceeded build_job_failed unknown_job unexpected_job_status : JobManagerError
  fsm_error : FsmError → JobManagerError
  other_error : String → JobManagerError

pub record JobManager : Type 0 where
  pub fsm : JobFsm
  pub tombstone_cleaned : Bool

unfoldable pub new_job_manager : JobManager
new_job_manager = record { fsm = new_job_fsm; tombstone_cleaned = false }

-- libModel.MasterStatusCode.
pub data MasterStatusCode : Type 0 where
  uninit init finished stopped : MasterStatusCode

-- The worker types of job masters.
abbrev pub job_manager_type : ℕ
job_manager_type = 1

abbrev pub cvs_job_master : ℕ
cvs_job_master = 2

abbrev pub fake_job_master : ℕ
fake_job_master = 3

abbrev pub dm_job_master : ℕ
dm_job_master = 4

-- pb.JobType: a demo, with whether its configuration decodes, the other two, and any other number.
pub data JobType : Type 0 where
  cvs_demo : Bool → JobType
  dm fake_job unknown_type : JobType

abbrev pub master_type : JobType → Option ℕ
master_type (cvs_demo true) = some cvs_job_master
master_type (cvs_demo false) = none
master_type dm = some dm_job_master
master_type fake_job = some fake_job_master
master_type unknown_type = none

abbrev pub Creator : Type 0 → Type 0
Creator S = S → MasterMeta → S × Dispatch JobManagerError

pub data Submitted : Type 0 where
  submitted : String → Submitted
  submit_failed : JobManagerError → Submitted

abbrev pub set_fsm : JobFsm → JobManager → JobManager
set_fsm fsm jm = record jm { fsm = fsm }

module _ {S : Type 0} (create_worker : Creator S) where
  abbrev pub created :
      MasterMeta → JobManager → S × Dispatch JobManagerError → S × JobManager × Submitted
  created meta jm (s, refused e) = (s, jm, submit_failed e)
  created meta jm (s, dispatched_as id) =
      (s, set_fsm (job_dispatched meta false jm.fsm) jm, submitted id)

  -- `stored` is the answer of StoreMasterMeta. The metadata of a job that is not created is deleted.
  unfoldable pub submit_job :
      String
      → JobType
      → String
      → Option JobManagerError
      → S
      → JobManager
      → S × JobManager × Submitted
  submit_job new_id tp config stored s jm = elim (master_type tp) [
    | none ↦ (s, jm, submit_failed build_job_failed)
    | some master_tp ↦
        let meta : MasterMeta = record { id = new_id; tp = master_tp; config = config } in
        elim stored [
          | some e ↦ (s, jm, submit_failed e)
          | none ↦ created meta jm (create_worker s meta)
        ]
  ]

  -- With whether the quota was exceeded, and the error that is left.
  abbrev pub filter_quota_error : Option JobManagerError → Bool × Option JobManagerError
  filter_quota_error none = (false, none)
  filter_quota_error (some master_concurrency_exceeded) = (true, none)
  filter_quota_error (some e) = (false, some e)

  -- A worker of GetWorkers, and whether its handle is a tombstone.
  abbrev pub Listed : Type 0
  Listed = WorkerHandle × Bool

  -- The loop of Tick over the workers; a worker that is not waited for is ignored.
  unfoldable pub settle_workers :
      (S → String → S × Option JobManagerError)
      → List Listed
      → S
      → JobFsm
      → S × JobFsm × Option JobManagerError
  settle_workers clean [] s fsm = (s, fsm, none)
  settle_workers clean ((worker, true) ∷ rest) s fsm =
      let (s', e) = clean s worker.id in
      elim e [ some x ↦ (s', fsm, some x) | none ↦ settle_workers clean rest s' fsm ]
  settle_workers clean ((worker, false) ∷ rest) s fsm =
      settle_workers clean rest s (job_online worker fsm).0

  abbrev pub finish_tick :
      JobManager → S × JobFsm × Option JobManagerError → S × JobManager × Option JobManagerError
  finish_tick jm (s, fsm, e) =
      let (exceeded, left) = filter_quota_error e in
      elim left [
        | some x ↦ (s, set_fsm fsm jm, some x)
        | none ↦ (
          s,
          record jm { fsm = fsm; tombstone_cleaned = not exceeded || jm.tombstone_cleaned },
          none,
        )
      ]

  abbrev pub recreate_jobs :
      JobManager → S × JobFsm × Option JobManagerError → S × JobManager × Option JobManagerError
  recreate_jobs jm (s, fsm, some x) = (s, set_fsm fsm jm, some x)
  recreate_jobs jm (s, fsm, none) =
      finish_tick (set_fsm fsm jm) (iter_wait_ack_jobs create_worker s fsm)

  abbrev pub clean_up :
      (S → String → S × Option JobManagerError)
      → Bool
      → List Listed
      → JobManager
      → S × JobFsm × Option JobManagerError
      → S × JobManager × Option JobManagerError
  clean_up clean is_master_ready workers jm (s, fsm, e) = elim (filter_quota_error e).1 [
    | some x ↦ (s, set_fsm fsm jm, some x)
    | none ↦
        if not jm.tombstone_cleaned && is_master_ready
        then recreate_jobs (set_fsm fsm jm) (settle_workers clean workers s fsm)
        else (s, set_fsm fsm jm, none)
  ]

  unfoldable pub tick :
      (S → String → S × Option JobManagerError)
      → Bool
      → List Listed
      → S
      → JobManager
      → S × JobManager × Option JobManagerError
  tick clean is_master_ready workers s jm =
      clean_up clean is_master_ready workers jm (iter_pending_jobs create_worker s jm.fsm)

-- A job as LoadAllMasters gives it.
pub record LoadedJob : Type 0 where
  pub meta : MasterMeta
  pub status_code : MasterStatusCode

abbrev pub has_ended : MasterStatusCode → Bool
has_ended finished = true
has_ended stopped = true
has_ended _ = false

unfoldable pub recover_jobs : List LoadedJob → JobFsm → JobFsm
recover_jobs [] fsm = fsm
recover_jobs (job ∷ rest) fsm = recover_jobs rest (
    if (job.meta.tp == job_manager_type) || has_ended job.status_code
    then fsm
    else job_dispatched job.meta true fsm)

pub data LoadedJobs : Type 0 where
  load_failed : JobManagerError → LoadedJobs
  jobs : List LoadedJob → LoadedJobs

unfoldable pub on_master_recovered : LoadedJobs → JobManager → JobManager × Option JobManagerError
on_master_recovered (load_failed e) jm = (jm, some e)
on_master_recovered (jobs js) jm = (set_fsm (recover_jobs js jm.fsm) jm, none)

abbrev pub from_fsm : JobManager → JobFsm × Option FsmError → JobManager × Option JobManagerError
from_fsm jm (fsm, none) = (set_fsm fsm jm, none)
from_fsm jm (fsm, some e) = (set_fsm fsm jm, some (fsm_error e))

unfoldable pub on_worker_dispatched :
    WorkerHandle → Bool → JobManager → JobManager × Option JobManagerError
on_worker_dispatched worker failed jm =
    if failed then from_fsm jm (job_dispatch_failed worker jm.fsm) else (jm, none)

unfoldable pub on_worker_online : WorkerHandle → JobManager → JobManager × Option JobManagerError
on_worker_online worker jm = from_fsm jm (job_online worker jm.fsm)

-- The reason of an offline event, as far as the manager tells it.
pub data Reason : Type 0 where
  worker_finish worker_stop other_reason : Reason

abbrev pub need_failover : Reason → Bool
need_failover worker_finish = false
need_failover worker_stop = false
need_failover other_reason = true

-- `cleaned` is the answer of CleanTombstone.
unfoldable pub on_worker_offline :
    WorkerHandle
    → Reason
    → Option JobManagerError
    → JobManager
    → JobManager × Option JobManagerError
on_worker_offline worker reason cleaned jm = elim cleaned [
  | some e ↦ (jm, some e)
  | none ↦ (set_fsm (job_offline worker (need_failover reason) jm.fsm) jm, none)
]

-- What Load of the job's metadata gives: a job, nothing, or an error, which is only logged.
pub data LoadedMeta : Type 0 where
  no_meta : LoadedMeta
  has_meta : LoadedJob → LoadedMeta

abbrev pub ended_response : LoadedJob → Option QueryJobResponse
ended_response job = elim job.status_code [
  | finished ↦ some (response job.meta JobStatus.finished)
  | stopped ↦ some (response job.meta JobStatus.stopped)
  | _ ↦ none
]

abbrev pub from_meta : LoadedMeta → Option QueryJobResponse
from_meta no_meta = none
from_meta (has_meta job) = ended_response job

-- `none` is the response with the error UnKnownJob. The machine is read at three moments.
unfoldable pub query_job_or_meta :
    String → LoadedMeta → JobFsm → JobFsm → JobFsm → Option QueryJobResponse
query_job_or_meta job_id meta first second third = elim (query_job job_id first second third) [
  | some r ↦ some r
  | none ↦ from_meta meta
]

-- What Unwrap of the job's handle gives, and SendMessage on it.
pub data Unwrapped : Type 0 where
  is_tombstone : Unwrapped
  sent : Option JobManagerError → Unwrapped

unfoldable pub pause_job : String → Unwrapped → JobManager → Option JobManagerError
pause_job job_id unwrapped jm = elim (query_online_job job_id jm.fsm) [
  | none ↦ some unknown_job
  | some _ ↦ elim unwrapped [ is_tombstone ↦ some unknown_job | sent e ↦ e ]
]

pub data FoundJob : Type 0 where
  not_found : FoundJob
  find_failed : JobManagerError → FoundJob
  found : MasterStatusCode → FoundJob

abbrev is_stopped : MasterStatusCode → Bool
is_stopped stopped = true
is_stopped _ = false

-- `deleted` is the answer of DeleteJob.
unfoldable pub cancel_job : FoundJob → Option JobManagerError → Option JobManagerError
cancel_job not_found deleted = some unknown_job
cancel_job (find_failed e) deleted = some e
cancel_job (found code) deleted = if is_stopped code then deleted else some unexpected_job_status
