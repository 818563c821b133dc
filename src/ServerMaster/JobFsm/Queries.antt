-- ===== src/ServerMaster/JobFsm/Queries.antt =====
-- QueryJob and JobCount against the phases.
use microcosm.Base.{
  suc, String, none, some, Option, ◌≡◌, ◌⊎◌, arith, length-insert, length-delete, String_eq, IsMap,
}
use microcosm.ServerMaster.JobFsm.{
  JobFsm, WorkerHandle, JobStatus, QueryJobResponse, query_job, query_online_job, pb_nil,
  handle_answer, JobHolder, job_count, job_online,
}
use microcosm.ServerMaster.JobFsm.Phase.{
  Phase, absent, pending, wait_ack, online, phase, IsExclusiveAt,
}

abbrev pub status_of : Phase → Option JobStatus
status_of absent = none
status_of pending = some JobStatus.pending
status_of wait_ack = some JobStatus.dispatched
status_of online = some JobStatus.online

abbrev pub Names : String → JobFsm → QueryJobResponse → Type 0
Names j fsm r = status_of (phase j fsm) ≡ some r.status

-- An answered query names the phase of the job at one of the three moments at which it takes the lock,
-- if at most one map holds the job at the second and at the third.
pub query_job-phase :
    (j : String) (first second third : JobFsm) (r : QueryJobResponse)
    → IsExclusiveAt j second
    → IsExclusiveAt j third
    → query_job j first second third ≡ some r
    → Names j first r ⊎ (Names j second r ⊎ Names j third r)
unfolding query_job phase
query_job-phase j first second third r e f h = ground arith

-- On a machine that does not change in between, a query goes unanswered only for an unknown job, or for
-- an online one whose handle has neither an error nor worker information to give.
pub query_job-none :
    (j : String) (fsm : JobFsm)
    → query_job j fsm fsm fsm ≡ none
    → (phase j fsm ≡ absent)
      ⊎ ((job : JobHolder) × (query_online_job j fsm ≡ some job)
          × (handle_answer job.handle ≡ pb_nil))
unfolding query_job query_online_job phase
query_job-none j fsm h = ground arith

-- A JobOnline that succeeds takes one from the count of dispatched jobs, adds one to that of online
-- jobs, and leaves that of pending jobs, if at most one map holds the job and the map of dispatched
-- jobs has no key twice.
pub job_count-job_online :
    (w : WorkerHandle) (fsm : JobFsm)
    → IsExclusiveAt w.id fsm
    → IsMap fsm.wait_ack_jobs
    → (job_online w fsm).1 ≡ none
    → let after = (job_online w fsm).0 in
      (suc (job_count JobStatus.dispatched after) ≡ job_count JobStatus.dispatched fsm)
      × (job_count JobStatus.online after ≡ suc (job_count JobStatus.online fsm))
      × (job_count JobStatus.pending after ≡ job_count JobStatus.pending fsm)
unfolding job_count job_online
job_count-job_online w fsm h m ok = grind (arith, length-insert, length-delete)
