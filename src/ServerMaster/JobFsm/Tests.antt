-- ===== src/ServerMaster/JobFsm/Tests.antt =====
-- Runs of the job machine.
use microcosm.Base.{
  ℕ, String, true, false, none, [], ◌∷◌, ◌≡◌, ◌⊎◌, refl, arith, lookup, insert, delete, All,
  String_eq,
}
use microcosm.ServerMaster.JobFsm.{
  JobFsm, MasterMeta, WorkerHandle, Dispatch, dispatched_as, pb_nil, pb_error, new_job_fsm,
  job_dispatched, job_online, job_offline, query_job, check_pending_job, check_wait_ack_job,
  check_online_job, iter_wait_ack_jobs,
}
use microcosm.ServerMaster.JobFsm.Phase.{phase}
use microcosm.ServerMaster.JobFsm.Iter.{KeepsId, iter_wait_ack_jobs_settles, kept}
use microcosm.ServerMaster.JobFsm.Steps.{
  Reach, here, next, dispatches, comes_online, IsExclusive, Edge, Step-Edge, Reach-IsExclusive,
}

abbrev job_a : MasterMeta
job_a = record { id = "a"; tp = 1; config = "{}" }

abbrev worker_a : WorkerHandle
worker_a = record { id = "a"; to_pb = pb_nil }

abbrev waiting : JobFsm
waiting = job_dispatched job_a true new_job_fsm

abbrev running : JobFsm
running = (job_online worker_a waiting).0

Reach-waiting : Reach new_job_fsm waiting
unfolding phase new_job_fsm lookup
Reach-waiting = next here (dispatches job_a true refl refl)

Reach-running : Reach new_job_fsm running
Reach-running = next Reach-waiting (comes_online worker_a refl)

Reach-IsExclusive_example : IsExclusive running
Reach-IsExclusive_example = Reach-IsExclusive Reach-running

waiting-IsExclusive : IsExclusive waiting
waiting-IsExclusive = Reach-IsExclusive Reach-waiting

running-IsExclusive : IsExclusive running
running-IsExclusive = Reach-IsExclusive Reach-running

Step-Edge_example :
    (phase "a" running ≡ phase "a" waiting) ⊎ Edge (phase "a" waiting) (phase "a" running)
Step-Edge_example = Step-Edge (comes_online worker_a refl) waiting-IsExclusive "a"

abbrev worker_b : WorkerHandle
worker_b = record { id = "a"; to_pb = pb_error "gone" }

-- A failover between the locks hides a job from a query: it is online at the first and pending at the
-- last.
abbrev online_job : JobFsm
online_job = (job_online worker_b waiting).0

missed_by_query : query_job "a" online_job online_job (job_offline worker_b true online_job) ≡ none
unfolding query_job check_pending_job check_wait_ack_job check_online_job job_offline job_online
    job_dispatched new_job_fsm lookup insert delete
missed_by_query = refl

abbrev failed_over : JobFsm
failed_over = record { pending_jobs = ("a", job_a) ∷ []; wait_ack_jobs = []; online_jobs = [] }

-- A dispatcher that accepts every job.
abbrev accept : ℕ → MasterMeta → ℕ × Dispatch String
accept n job = (n, dispatched_as job.id)

accept-KeepsId : KeepsId accept
accept-KeepsId s job id q = ground arith

failed_over-IsExclusive : IsExclusive failed_over
unfolding lookup
failed_over-IsExclusive j = ground arith

iter_wait_ack_jobs_settles_example :
    let (_, after, e) = iter_wait_ack_jobs accept 0 waiting in
    (kept after.wait_ack_jobs ≡ kept waiting.wait_ack_jobs)
    × (after.pending_jobs ≡ waiting.pending_jobs)
    × (after.online_jobs ≡ waiting.online_jobs)
    × (e ≡ none → All (λ entry. entry.1.add_from_failover ≡ false) after.wait_ack_jobs)
iter_wait_ack_jobs_settles_example = iter_wait_ack_jobs_settles accept 0 waiting
