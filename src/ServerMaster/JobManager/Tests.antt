-- ===== src/ServerMaster/JobManager/Tests.antt =====
-- A run of the job manager.
use microcosm.Base.{ℕ, String, true, none, Option, List, [], ◌∷◌, refl, lookup, insert, String_eq}
use microcosm.ServerMaster.JobFsm.{MasterMeta, dispatched_as, pb_nil, new_job_fsm, job_dispatched}
use microcosm.ServerMaster.JobFsm.Phase.{phase}
use microcosm.ServerMaster.JobFsm.Steps.{here, Reach-IsExclusive}
use microcosm.ServerMaster.JobFsm.Iter.{KeepsId}
use microcosm.ServerMaster.JobFsm.Keyed.{new_job_fsm-NothingRuns, new_job_fsm-IsKeyed}
use microcosm.ServerMaster.JobManager.{
  JobManager, JobManagerError, on_master_recovered, recover_jobs, Creator, new_job_manager,
  fake_job, jobs, uninit, cvs_job_master, other_reason,
}
use microcosm.ServerMaster.JobManager.Calls.{
  IsSound, Call, AllAllowed, recovers, submits, ticks, comes_online, goes_offline, step, run,
  run-IsSound,
}

-- A creator that counts its calls and a cleaner that does nothing.
abbrev counts : Creator ℕ
counts n job = (n, dispatched_as job.id)

counts-KeepsId : KeepsId counts
counts-KeepsId s job id q = cc

abbrev cleans : ℕ → String → ℕ × Option JobManagerError
cleans n id = (n, none)

abbrev old_job : MasterMeta
old_job = record { id = "old"; tp = cvs_job_master; config = "{}" }

abbrev start : ℕ × JobManager
start = (0, new_job_manager)

start-IsSound : IsSound start.1.fsm
unfolding new_job_manager
start-IsSound = record { keyed = new_job_fsm-IsKeyed; exclusive = Reach-IsExclusive here }

abbrev calls : List Call
calls =
    recovers (jobs (record { meta = old_job; status_code = uninit } ∷ []))
    ∷ submits "new" fake_job "{}" none
    ∷ comes_online (record { id = "old"; to_pb = pb_nil })
    ∷ goes_offline (record { id = "old"; to_pb = pb_nil }) other_reason none
    ∷ ticks true []
    ∷ []

calls-AllAllowed : AllAllowed counts cleans calls start
unfolding new_job_manager new_job_fsm step on_master_recovered recover_jobs job_dispatched phase
    lookup insert
calls-AllAllowed = (new_job_fsm-NothingRuns, (refl, (tt, (tt, (tt, tt)))))

run-IsSound_example : IsSound (run counts cleans calls start).1.fsm
run-IsSound_example =
    run-IsSound counts cleans counts-KeepsId calls start calls-AllAllowed start-IsSound
