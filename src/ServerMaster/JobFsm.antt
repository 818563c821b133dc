-- ===== src/ServerMaster/JobFsm.antt =====
-- servermaster/job_fsm.go: the jobs that the server master knows, in three maps. Each method but
-- QueryJob holds the lock from its first to its last line, so it is one step here; QueryJob takes the
-- lock once for each map, so it sees three states. A worker handle is what the
-- machine asks of it: its id, and the answer of ToPB at the time of the query. The callback that
-- dispatches a job is a parameter that threads a state of its own.
pub mod Phase
pub mod Queries
pub mod Iter
pub mod Steps
pub mod Keyed
mod Tests
use microcosm.Base.{
  ℕ, String, Bool, true, false, Option, none, some, List, [], ◌∷◌, Map, lookup, insert, delete,
  length, if◌then◌else◌, String_eq,
}

-- libModel.MasterMetaKVData, with the fields that the machine reads or writes.
pub record MasterMeta : Type 0 where
  pub id : String
  pub tp : ℕ
  pub config : String

pub record WorkerInfo : Type 0 where
  pub id : String
  pub executor_id : String
  pub status : String

-- The three results of ToPB that QueryJob tells apart.
pub data PbAnswer : Type 0 where
  pb_error : String → PbAnswer
  pb_info : WorkerInfo → PbAnswer
  pb_nil : PbAnswer

pub record WorkerHandle : Type 0 where
  pub id : String
  pub to_pb : PbAnswer

-- A job in waitAckJobs has no handle yet, and one in onlineJobs has one.
pub record JobHolder : Type 0 where
  pub handle : Option WorkerHandle
  pub meta : MasterMeta
  pub add_from_failover : Bool

pub record JobFsm : Type 0 where
  pub pending_jobs : Map String MasterMeta
  pub wait_ack_jobs : Map String JobHolder
  pub online_jobs : Map String JobHolder

pub data JobStatus : Type 0 where
  init pending online dispatched finished stopped : JobStatus

pub record QueryJobResponse : Type 0 where
  pub tp : ℕ
  pub config : String
  pub status : JobStatus
  pub err : Option String
  pub job_master_info : Option WorkerInfo

-- errors.ErrWorkerNotFound, with the id that was looked for.
pub data FsmError : Type 0 where
  worker_not_found : String → FsmError

unfoldable pub new_job_fsm : JobFsm
new_job_fsm = record { pending_jobs = []; wait_ack_jobs = []; online_jobs = [] }

pub query_online_job : String → JobFsm → Option JobHolder
query_online_job job_id fsm = lookup job_id fsm.online_jobs

abbrev pub response : MasterMeta → JobStatus → QueryJobResponse
response meta status = record {
  tp = meta.tp;
  config = meta.config;
  status = status;
  err = none;
  job_master_info = none;
}

abbrev pub handle_answer : Option WorkerHandle → PbAnswer
handle_answer none = pb_nil
handle_answer (some h) = h.to_pb

abbrev pub online_response : MasterMeta → PbAnswer → Option QueryJobResponse
online_response meta (pb_error message) =
    some (record (response meta online) { err = some message })
online_response meta (pb_info info) =
    some (record (response meta online) { job_master_info = some info })
online_response meta pb_nil = none

pub check_pending_job : String → JobFsm → Option QueryJobResponse
check_pending_job job_id fsm = elim (lookup job_id fsm.pending_jobs) [
  | none ↦ none
  | some meta ↦ some (response meta pending)
]

pub check_wait_ack_job : String → JobFsm → Option QueryJobResponse
check_wait_ack_job job_id fsm = elim (lookup job_id fsm.wait_ack_jobs) [
  | none ↦ none
  | some job ↦ some (response job.meta dispatched)
]

pub check_online_job : String → JobFsm → Option QueryJobResponse
check_online_job job_id fsm = elim (lookup job_id fsm.online_jobs) [
  | none ↦ none
  | some job ↦ online_response job.meta (handle_answer job.handle)
]

abbrev pub or_else {ℓ} : {A : Type ℓ} → Option A → Option A → Option A
or_else (some a) other = some a
or_else none other = other

pub query_job : String → JobFsm → JobFsm → JobFsm → Option QueryJobResponse
unfolding check_pending_job check_wait_ack_job check_online_job
query_job job_id first second third =
    or_else (check_pending_job job_id first)
      (or_else (check_wait_ack_job job_id second) (check_online_job job_id third))

unfoldable pub job_dispatched : MasterMeta → Bool → JobFsm → JobFsm
job_dispatched job add_from_failover fsm = record fsm {
  wait_ack_jobs =
      insert job.id (record { handle = none; meta = job; add_from_failover = add_from_failover })
        fsm.wait_ack_jobs;
}

pub job_online : WorkerHandle → JobFsm → JobFsm × Option FsmError
job_online worker fsm = elim (lookup worker.id fsm.wait_ack_jobs) [
  | none ↦ (fsm, some (worker_not_found worker.id))
  | some job ↦ (
    record fsm {
      online_jobs =
          insert worker.id
            (record { handle = some worker; meta = job.meta; add_from_failover = false })
            fsm.online_jobs;
      wait_ack_jobs = delete worker.id fsm.wait_ack_jobs;
    },
    none,
  )
]

abbrev failover : Bool → String → JobHolder → JobFsm → JobFsm
failover need_failover id job fsm =
    if need_failover then record fsm { pending_jobs = insert id job.meta fsm.pending_jobs } else fsm

offline_wait_ack : String → Bool → JobFsm → JobFsm
offline_wait_ack id need_failover fsm = elim (lookup id fsm.wait_ack_jobs) [
  | none ↦ fsm
  | some job ↦
      failover need_failover id job (record fsm { wait_ack_jobs = delete id fsm.wait_ack_jobs })
]

pub job_offline : WorkerHandle → Bool → JobFsm → JobFsm
unfolding offline_wait_ack
job_offline worker need_failover fsm = elim (lookup worker.id fsm.online_jobs) [
  | none ↦ offline_wait_ack worker.id need_failover fsm
  | some job ↦
      failover need_failover worker.id job
        (record fsm { online_jobs = delete worker.id fsm.online_jobs })
]

pub job_dispatch_failed : WorkerHandle → JobFsm → JobFsm × Option FsmError
job_dispatch_failed worker fsm = elim (lookup worker.id fsm.wait_ack_jobs) [
  | none ↦ (fsm, some (worker_not_found worker.id))
  | some job ↦ (
    record fsm {
      pending_jobs = insert worker.id job.meta fsm.pending_jobs;
      wait_ack_jobs = delete worker.id fsm.wait_ack_jobs;
    },
    none,
  )
]

pub job_count : JobStatus → JobFsm → ℕ
job_count pending fsm = length fsm.pending_jobs
job_count dispatched fsm = length fsm.wait_ack_jobs
job_count online fsm = length fsm.online_jobs
job_count _ fsm = 0

-- What the dispatch callback answers: the id of the job master's worker, or an error.
pub data Dispatch (E : Type 0) : Type 0 where
  dispatched_as : String → Dispatch E
  refused : E → Dispatch E

-- The body of the loop of IterPendingJobs.
abbrev pub redispatch : String → MasterMeta → String → JobFsm → JobFsm
redispatch old_job_id job id fsm = record fsm {
  pending_jobs = delete old_job_id fsm.pending_jobs;
  wait_ack_jobs =
      insert id (record { handle = none; meta = record job { id = id }; add_from_failover = false })
        fsm.wait_ack_jobs;
}

module _ {S E : Type 0} (dispatch_job_fn : S → MasterMeta → S × Dispatch E) where
  pub iter_pending_from : Map String MasterMeta → S → JobFsm → S × JobFsm × Option E
  iter_pending_from [] s fsm = (s, fsm, none)
  iter_pending_from ((old_job_id, job) ∷ rest) s fsm =
      let (s', answer) = dispatch_job_fn s job in
      elim answer [
        | refused e ↦ (s', fsm, some e)
        | dispatched_as id ↦ iter_pending_from rest s' (redispatch old_job_id job id fsm)
      ]

  pub iter_pending_jobs : S → JobFsm → S × JobFsm × Option E
  unfolding iter_pending_from
  iter_pending_jobs s fsm = iter_pending_from fsm.pending_jobs s fsm

  -- The loop of IterWaitAckJobs writes the entry that it stands at.
  pub iter_wait_ack_from : Map String JobHolder → S → S × Map String JobHolder × Option E
  iter_wait_ack_from [] s = (s, [], none)
  iter_wait_ack_from ((id, job) ∷ rest) s = elim job.add_from_failover [
    | false ↦ let (s', jobs, e) = iter_wait_ack_from rest s in (s', (id, job) ∷ jobs, e)
    | true ↦
        let (s', answer) = dispatch_job_fn s job.meta in
        elim answer [
          | refused e ↦ (s', (id, job) ∷ rest, some e)
          | dispatched_as _ ↦
              let (s'', jobs, e) = iter_wait_ack_from rest s' in
              (s'', (id, record job { add_from_failover = false }) ∷ jobs, e)
        ]
  ]

  pub iter_wait_ack_jobs : S → JobFsm → S × JobFsm × Option E
  unfolding iter_wait_ack_from
  iter_wait_ack_jobs s fsm =
      let (s', jobs, e) = iter_wait_ack_from fsm.wait_ack_jobs s in
      (s', record fsm { wait_ack_jobs = jobs }, e)
