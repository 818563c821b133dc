-- ===== src/ServerMaster/JobFsm/Steps.antt =====
-- The machine as a step relation over phases: the diagram at the head of job_fsm.go.
use microcosm.Base.{
  String, Bool, false, some, ◌≡◌, refl, ◌⊎◌, inl, arith, lookup, insert, String_eq, eq_iff,
}
use microcosm.ServerMaster.JobFsm.{
  JobFsm, MasterMeta, JobHolder, WorkerHandle, redispatch, new_job_fsm, job_dispatched, job_online,
  job_offline, job_dispatch_failed,
}
use microcosm.ServerMaster.JobFsm.Phase.{
  Phase, absent, pending, wait_ack, online, phase, IsExclusiveAt, maps, job_online_at,
  job_dispatch_failed_at, job_offline_at, job_dispatched_at, phase-job_online, phase-job_offline,
  phase-job_dispatch_failed, phase-job_dispatched,
}

-- The arrows of the diagram; `submitted` is SubmitJob, which the diagram leaves out.
pub data Edge : Phase → Phase → Type 0 where
  submitted : Edge absent wait_ack
  heartbeat : Edge wait_ack online
  failed_over : Edge online pending
  finished : Edge online absent
  failed_early : Edge wait_ack pending
  finished_early : Edge wait_ack absent
  created : Edge pending wait_ack

ruleset arrows =
    (submitted, heartbeat, failed_over, finished, failed_early, finished_early, created)

-- IterWaitAckJobs has created the job's master again.
abbrev pub recreate : String → JobHolder → JobFsm → JobFsm
recreate id job fsm = record fsm {
  wait_ack_jobs = insert id (record job { add_from_failover = false }) fsm.wait_ack_jobs;
}

-- One call of a method, or one round of the two loops; a job is dispatched under a new id.
pub data Step (f g : JobFsm) : Type 0 where
  dispatches :
      (job : MasterMeta) (b : Bool)
      → phase job.id f ≡ absent
      → g ≡ job_dispatched job b f
      → Step f g
  comes_online : (w : WorkerHandle) → g ≡ (job_online w f).0 → Step f g
  goes_offline : (w : WorkerHandle) (b : Bool) → g ≡ job_offline w b f → Step f g
  dispatch_fails : (w : WorkerHandle) → g ≡ (job_dispatch_failed w f).0 → Step f g
  redispatches :
      (job : MasterMeta)
      → lookup job.id f.pending_jobs ≡ some job
      → g ≡ redispatch job.id job job.id f
      → Step f g
  recreates :
      (id : String) (job : JobHolder)
      → lookup id f.wait_ack_jobs ≡ some job
      → g ≡ recreate id job f
      → Step f g

pub data Reach (f : JobFsm) : JobFsm → Type 0 where
  here : Reach f f
  next : {g h : JobFsm} → Reach f g → Step g h → Reach f h

abbrev pub IsExclusive : JobFsm → Type 0
IsExclusive fsm = (j : String) → IsExclusiveAt j fsm

Step-IsExclusive : {f g : JobFsm} → Step f g → IsExclusive f → IsExclusive g
Step-IsExclusive {f} (dispatches job b fresh e) h j =
    rw e (job_dispatched_at j job b f (inl fresh) (h job.id) (h j))
Step-IsExclusive {f} (comes_online w e) h j = rw e (job_online_at j w f (h j))
Step-IsExclusive {f} (goes_offline w b e) h j = rw e (job_offline_at j w f (h j) b)
Step-IsExclusive {f} (dispatch_fails w e) h j = rw e (job_dispatch_failed_at j w f (h j))
Step-IsExclusive {f} (redispatches job p e) h j = rw e (grind (maps, eq_iff job.id j, h j))
Step-IsExclusive {f} (recreates id job p e) h j = rw e (grind (maps, eq_iff id j, h j))

-- After any steps from the empty machine no job stands in two maps; a step submits a job only under an
-- id that no map holds, and dispatches a pending one again under its own.
pub Reach-IsExclusive : {fsm : JobFsm} → Reach new_job_fsm fsm → IsExclusive fsm
unfolding new_job_fsm lookup
Reach-IsExclusive here j = (refl, refl, refl)
Reach-IsExclusive (next r st) j = Step-IsExclusive st (Reach-IsExclusive r) j

abbrev Moves : Phase → Phase → Type 0
Moves p q = (q ≡ p) ⊎ Edge p q

-- From a machine that holds no job in two maps, a step leaves a job in its phase, or takes it along an
-- arrow of the diagram.
pub Step-Edge :
    {f g : JobFsm} → Step f g → IsExclusive f → (j : String) → Moves (phase j f) (phase j g)
Step-Edge {f} (dispatches job b fresh e) h j =
    rw (e, phase-job_dispatched j job b f fresh) (grind (arith, eq_iff job.id j, arrows))
Step-Edge {f} (comes_online w e) h j = rw (e, phase-job_online j w f (h j)) (grind (arith, arrows))
Step-Edge {f} (goes_offline w b e) h j =
    rw (e, phase-job_offline j w f (h j) b) (grind (arith, arrows))
Step-Edge {f} (dispatch_fails w e) h j =
    rw (e, phase-job_dispatch_failed j w f (h j)) (grind (arith, arrows))
Step-Edge {f} (redispatches job p e) h j =
    rw e (unfold phase in grind (maps, eq_iff job.id j, h j, arrows))
Step-Edge {f} (recreates id job p e) h j =
    rw e (unfold phase in grind (maps, eq_iff id j, h j, arrows))
