-- ===== src/ServerMaster/JobFsm/Phase.antt =====
-- The phase of a job: which of the three maps of the machine holds it.
use microcosm.Base.{
  String, Bool, true, false, ◌&&◌, ◌||◌, not, none, some, Option, ◌≡◌, refl, ◌⊎◌, inl, inr, arith,
  has, lookup, lookup-insert, lookup-delete, String_eq, ◌==◌, if◌then◌else◌, eq_iff,
}
use microcosm.ServerMaster.JobFsm.{
  JobFsm, MasterMeta, WorkerHandle, job_dispatched, job_online, job_offline, job_dispatch_failed,
}

pub data Phase : Type 0 where
  absent pending wait_ack online : Phase

abbrev pub phase_of : Bool → Bool → Bool → Phase
phase_of p w o = if p then pending else if w then wait_ack else if o then online else absent

unfoldable pub phase : String → JobFsm → Phase
phase j fsm = phase_of (has j fsm.pending_jobs) (has j fsm.wait_ack_jobs) (has j fsm.online_jobs)

abbrev pub AtMostOne : Bool → Bool → Bool → Type 0
AtMostOne a b c = (a && b ≡ false) × (a && c ≡ false) × (b && c ≡ false)

-- No map but one holds the job.
abbrev pub IsExclusiveAt : String → JobFsm → Type 0
IsExclusiveAt j fsm =
    AtMostOne (has j fsm.pending_jobs) (has j fsm.wait_ack_jobs) (has j fsm.online_jobs)

pub ruleset maps = (arith, lookup-insert, lookup-delete)

module _ (j : String) (w : WorkerHandle) (fsm : JobFsm) (h : IsExclusiveAt j fsm) where
  pub job_online_at : IsExclusiveAt j (job_online w fsm).0
  unfolding job_online
  job_online_at = grind (maps, eq_iff w.id j)

  pub job_dispatch_failed_at : IsExclusiveAt j (job_dispatch_failed w fsm).0
  unfolding job_dispatch_failed
  job_dispatch_failed_at = grind (maps, eq_iff w.id j)

  pub job_offline_at : (b : Bool) → IsExclusiveAt j (job_offline w b fsm)
  unfolding job_offline
  job_offline_at b = grind (maps, eq_iff w.id j)

  -- Of a job that at most one map holds: if it is the worker's own, JobOnline takes it from wait_ack
  -- to online and leaves it in any other phase; the phase of another job stays.
  pub phase-job_online : phase j (job_online w fsm).0 ≡ (
      if w.id == j then elim (phase j fsm) [ wait_ack ↦ online | other ↦ other ] else phase j fsm)
  unfolding job_online phase
  phase-job_online = grind (maps, eq_iff w.id j)

  pub phase-job_dispatch_failed : phase j (job_dispatch_failed w fsm).0 ≡ (
      if w.id == j then elim (phase j fsm) [ wait_ack ↦ pending | other ↦ other ] else phase j fsm)
  unfolding job_dispatch_failed phase
  phase-job_dispatch_failed = grind (maps, eq_iff w.id j)

  -- Of a job that at most one map holds: if it is the worker's own and in wait_ack or online, JobOffline
  -- takes it to pending with a failover and drops it without one; any other phase, and the phase of
  -- another job, stays.
  pub phase-job_offline :
      (need_failover : Bool)
      → phase j (job_offline w need_failover fsm) ≡ (
          if w.id == j
          then elim (phase j fsm) [
            | wait_ack ↦ if need_failover then pending else absent
            | online ↦ if need_failover then pending else absent
            | other ↦ other
          ]
          else phase j fsm)
  unfolding job_offline phase
  phase-job_offline b = grind (maps, eq_iff w.id j)

module _ (j : String) (job : MasterMeta) (b : Bool) (fsm : JobFsm) where
  pub job_dispatched_at :
      (phase job.id fsm ≡ absent) ⊎ (phase job.id fsm ≡ wait_ack)
      → IsExclusiveAt job.id fsm
      → IsExclusiveAt j fsm
      → IsExclusiveAt j (job_dispatched job b fsm)
  unfolding job_dispatched phase
  job_dispatched_at fresh own h = grind (maps, eq_iff job.id j)

  pub phase-job_dispatched :
      phase job.id fsm ≡ absent
      → phase j (job_dispatched job b fsm) ≡ (if job.id == j then wait_ack else phase j fsm)
  unfolding job_dispatched phase
  phase-job_dispatched fresh = grind (maps, eq_iff job.id j)
