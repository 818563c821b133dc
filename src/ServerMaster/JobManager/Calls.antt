-- ===== src/ServerMaster/JobManager/Calls.antt =====
-- The job manager over any calls: what the job machine holds, and what a Tick settles.
use microcosm.Base.{
  ℕ, String, Bool, true, false, not, ◌&&◌, ◌||◌, Option, none, some, List, [], ◌∷◌, ◌≡◌, sym, subst,
  ◌⊎◌, inl, inr, arith, All, String_eq, ℕ_eq, ◌==◌, if◌then◌else◌, Bool-cases, Option-cases,
}
use microcosm.ServerMaster.JobFsm.{
  JobFsm, MasterMeta, WorkerHandle, Dispatch, dispatched_as, refused, FsmError, job_dispatched,
  job_online, job_offline, job_dispatch_failed, iter_pending_jobs, iter_wait_ack_jobs,
}
use microcosm.ServerMaster.JobFsm.Phase.{
  absent, wait_ack, phase, job_dispatched_at, job_online_at, job_offline_at, job_dispatch_failed_at,
}
use microcosm.ServerMaster.JobFsm.Steps.{IsExclusive}
use microcosm.ServerMaster.JobFsm.Iter.{
  KeepsId, iter_pending_jobs-IsExclusive, iter_wait_ack_jobs_settles,
}
use microcosm.ServerMaster.JobFsm.Keyed.{
  IsKeyed, NothingRuns, job_dispatched-NothingRuns, job_dispatched-IsKeyed, job_online-IsKeyed,
  job_offline-IsKeyed, job_dispatch_failed-IsKeyed, iter_pending_jobs-IsKeyed,
  iter_wait_ack_jobs-IsKeyed, iter_wait_ack_jobs_at,
}
use microcosm.ServerMaster.JobManager.{
  JobManager, JobManagerError, Creator, JobType, LoadedJob, LoadedJobs, load_failed, jobs, Reason,
  need_failover, submit_job, master_type, created, tick, clean_up, recreate_jobs, finish_tick,
  filter_quota_error, settle_workers, set_fsm, recover_jobs, has_ended, job_manager_type,
  on_master_recovered, on_worker_dispatched, on_worker_online, on_worker_offline, from_fsm,
}

-- No job stands in two maps, and each stands under its id.
pub record IsSound (fsm : JobFsm) : Type 0 where
  pub keyed : IsKeyed fsm
  pub exclusive : IsExclusive fsm

dispatched-IsSound :
    (job : MasterMeta) (b : Bool) (fsm : JobFsm)
    → (phase job.id fsm ≡ absent) ⊎ (phase job.id fsm ≡ wait_ack)
    → IsSound fsm
    → IsSound (job_dispatched job b fsm)
dispatched-IsSound job b fsm p s = record {
  keyed = job_dispatched-IsKeyed job b fsm s.keyed;
  exclusive = λ j. job_dispatched_at j job b fsm p (s.exclusive job.id) (s.exclusive j);
}

online-IsSound : (w : WorkerHandle) (fsm : JobFsm) → IsSound fsm → IsSound (job_online w fsm).0
online-IsSound w fsm s = record {
  keyed = job_online-IsKeyed w fsm s.keyed;
  exclusive = λ j. job_online_at j w fsm (s.exclusive j);
}

offline-IsSound :
    (w : WorkerHandle) (b : Bool) (fsm : JobFsm) → IsSound fsm → IsSound (job_offline w b fsm)
offline-IsSound w b fsm s = record {
  keyed = job_offline-IsKeyed w b fsm s.keyed;
  exclusive = λ j. job_offline_at j w fsm (s.exclusive j) b;
}

dispatch_failed-IsSound :
    (w : WorkerHandle) (fsm : JobFsm) → IsSound fsm → IsSound (job_dispatch_failed w fsm).0
dispatch_failed-IsSound w fsm s = record {
  keyed = job_dispatch_failed-IsKeyed w fsm s.keyed;
  exclusive = λ j. job_dispatch_failed_at j w fsm (s.exclusive j);
}

idle_phase :
    (id : String) (fsm : JobFsm)
    → NothingRuns fsm
    → (phase id fsm ≡ absent) ⊎ (phase id fsm ≡ wait_ack)
unfolding phase
idle_phase id fsm n = ground (arith, n id)

from_fsm-IsSound :
    (jm : JobManager) (r : JobFsm × Option FsmError) → IsSound r.0 → IsSound (from_fsm jm r).0.fsm
from_fsm-IsSound jm (fsm, none) s = s
from_fsm-IsSound jm (fsm, some e) s = s

recover_jobs-IsSound :
    (js : List LoadedJob) (fsm : JobFsm)
    → NothingRuns fsm
    → IsSound fsm
    → ((job : MasterMeta) (f : JobFsm) → NothingRuns f → NothingRuns (job_dispatched job true f))
    → IsSound (recover_jobs js fsm)
unfolding recover_jobs
recover_jobs-IsSound [] fsm n s keeps = s
recover_jobs-IsSound (job ∷ js) fsm n s keeps =
    elim (Bool-cases ((job.meta.tp == job_manager_type) || has_ended job.status_code)) [
      | inl skipped ↦ rw skipped (recover_jobs-IsSound js fsm n s keeps)
      | inr active ↦ rw active (
          recover_jobs-IsSound js (job_dispatched job.meta true fsm) (keeps job.meta fsm n)
            (dispatched-IsSound job.meta true fsm (idle_phase job.meta.id fsm n) s) keeps)
    ]

module _ {S : Type 0} (create : Creator S) (keeps : KeepsId create)
    (clean : S → String → S × Option JobManagerError) where
  settle_workers-IsSound :
      (ws : List (WorkerHandle × Bool)) (s : S) (fsm : JobFsm)
      → IsSound fsm
      → IsSound (settle_workers create clean ws s fsm).1
  unfolding settle_workers
  settle_workers-IsSound [] s fsm h = h
  settle_workers-IsSound ((w, false) ∷ ws) s fsm h =
      settle_workers-IsSound ws s (job_online w fsm).0 (online-IsSound w fsm h)
  settle_workers-IsSound ((w, true) ∷ ws) s fsm h = elim (Option-cases (clean s w.id).1) [
    | inl q ↦ rw (q, settle_workers) (settle_workers-IsSound ws (clean s w.id).0 fsm h)
    | inr (x, q) ↦ rw (q, settle_workers) h
  ]

  iter_pending-IsSound :
      (s : S) (fsm : JobFsm) → IsSound fsm → IsSound (iter_pending_jobs create s fsm).1
  iter_pending-IsSound s fsm h = record {
    keyed = iter_pending_jobs-IsKeyed create s fsm h.keyed;
    exclusive = iter_pending_jobs-IsExclusive create keeps s fsm h.keyed.pending h.exclusive;
  }

  iter_wait_ack-IsSound :
      (s : S) (fsm : JobFsm) → IsSound fsm → IsSound (iter_wait_ack_jobs create s fsm).1
  iter_wait_ack-IsSound s fsm h = record {
    keyed = iter_wait_ack_jobs-IsKeyed create s fsm h.keyed;
    exclusive = λ j. iter_wait_ack_jobs_at create j s fsm (h.exclusive j);
  }

  finish_tick_fsm :
      (jm : JobManager) (r : S × JobFsm × Option JobManagerError)
      → (finish_tick create jm r).1.fsm ≡ r.1
  finish_tick_fsm jm r = ground arith

  recreate_jobs-IsSound :
      (jm : JobManager) (r : S × JobFsm × Option JobManagerError)
      → IsSound r.1
      → IsSound (recreate_jobs create jm r).1.fsm
  recreate_jobs-IsSound jm (s, fsm, some x) h = h
  recreate_jobs-IsSound jm (s, fsm, none) h =
      subst IsSound (sym (finish_tick_fsm (set_fsm fsm jm) (iter_wait_ack_jobs create s fsm)))
        (iter_wait_ack-IsSound s fsm h)

  clean_up-IsSound :
      (is_ready : Bool) (ws : List (WorkerHandle × Bool)) (jm : JobManager)
      (r : S × JobFsm × Option JobManagerError)
      → IsSound r.1
      → IsSound (clean_up create clean is_ready ws jm r).1.fsm
  clean_up-IsSound is_ready ws jm (s, fsm, e) h =
      elim (Option-cases (filter_quota_error create e).1) [
        | inr (x, q) ↦ rw (q, clean_up) h
        | inl q ↦ rw (q, clean_up) (due-IsSound (not jm.tombstone_cleaned && is_ready))
      ]
    where
      due-IsSound :
          (due : Bool)
          → IsSound
              (if due
                then recreate_jobs create (set_fsm fsm jm) (settle_workers create clean ws s fsm)
                else (s, set_fsm fsm jm, none)).1.fsm
      due-IsSound true =
          recreate_jobs-IsSound (set_fsm fsm jm) (settle_workers create clean ws s fsm)
            (settle_workers-IsSound ws s fsm h)
      due-IsSound false = h

  tick-IsSound :
      (is_ready : Bool) (ws : List (WorkerHandle × Bool)) (s : S) (jm : JobManager)
      → IsSound jm.fsm
      → IsSound (tick create clean is_ready ws s jm).1.fsm
  unfolding tick
  tick-IsSound is_ready ws s jm h =
      clean_up-IsSound is_ready ws jm (iter_pending_jobs create s jm.fsm)
        (iter_pending-IsSound s jm.fsm h)

  submit_job-IsSound :
      (new_id : String) (tp : JobType) (config : String) (stored : Option JobManagerError) (s : S)
      (jm : JobManager)
      → phase new_id jm.fsm ≡ absent
      → IsSound jm.fsm
      → IsSound (submit_job create new_id tp config stored s jm).1.fsm
  unfolding submit_job
  submit_job-IsSound new_id tp config (some x) s jm p h = elim (Option-cases (master_type tp)) [
    | inl q ↦ rw (q, submit_job) h
    | inr (t, q) ↦ rw (q, submit_job) h
  ]
  submit_job-IsSound new_id tp config none s jm p h = elim (Option-cases (master_type tp)) [
    | inl q ↦ rw (q, submit_job) h
    | inr (t, q) ↦
        rw (q, submit_job)
          (created-IsSound t (create s (record { id = new_id; tp = t; config = config })))
  ]
    where
      created-IsSound :
          (t : ℕ) (r : S × Dispatch JobManagerError)
          → IsSound (created create (record { id = new_id; tp = t; config = config }) jm r).1.fsm
      created-IsSound t (s', refused e) = h
      created-IsSound t (s', dispatched_as id) =
          dispatched-IsSound (record { id = new_id; tp = t; config = config }) false jm.fsm (inl p)
            h

  -- The loop over the jobs that wait has left none that a failover added.
  finish_tick_settles :
      (jm : JobManager) (s : S) (fsm : JobFsm)
      → jm.tombstone_cleaned ≡ false
      → (finish_tick create jm (iter_wait_ack_jobs create s fsm)).1.tombstone_cleaned ≡ true
      → All
          (λ entry. entry.1.add_from_failover ≡ false)
          (iter_wait_ack_jobs create s fsm).1.wait_ack_jobs
  finish_tick_settles jm s fsm open_ closed =
      (iter_wait_ack_jobs_settles create s fsm).3
        (no_error (iter_wait_ack_jobs create s fsm) closed)
    where
      no_error :
          (r : S × JobFsm × Option JobManagerError)
          → (finish_tick create jm r).1.tombstone_cleaned ≡ true
          → r.2 ≡ none
      no_error r c = ground arith

pub data Call : Type 0 where
  submits : String → JobType → String → Option JobManagerError → Call
  ticks : Bool → List (WorkerHandle × Bool) → Call
  recovers : LoadedJobs → Call
  dispatch_ends : WorkerHandle → Bool → Call
  comes_online : WorkerHandle → Call
  goes_offline : WorkerHandle → Reason → Option JobManagerError → Call

-- A new job has a new id; recovery comes before anything is pending or online.
abbrev pub Allowed : Call → JobManager → Type 0
Allowed (submits new_id tp config stored) jm = phase new_id jm.fsm ≡ absent
Allowed (recovers loaded) jm = NothingRuns jm.fsm
Allowed _ jm = Unit

module _ {S : Type 0} (create : Creator S) (clean : S → String → S × Option JobManagerError) where
  unfoldable pub step : Call → S × JobManager → S × JobManager
  step (submits new_id tp config stored) (s, jm) =
      let (s', jm', _) = submit_job create new_id tp config stored s jm in (s', jm')
  step (ticks is_ready ws) (s, jm) =
      let (s', jm', _) = tick create clean is_ready ws s jm in (s', jm')
  step (recovers loaded) (s, jm) = (s, (on_master_recovered loaded jm).0)
  step (dispatch_ends w failed) (s, jm) = (s, (on_worker_dispatched w failed jm).0)
  step (comes_online w) (s, jm) = (s, (on_worker_online w jm).0)
  step (goes_offline w reason cleaned) (s, jm) = (s, (on_worker_offline w reason cleaned jm).0)

  unfoldable pub run : List Call → S × JobManager → S × JobManager
  run [] st = st
  run (c ∷ cs) st = run cs (step c st)

  abbrev pub AllAllowed : List Call → S × JobManager → Type 0
  AllAllowed [] st = Unit
  AllAllowed (c ∷ cs) st = Allowed c st.1 × AllAllowed cs (step c st)

  recovered-IsSound :
      (loaded : LoadedJobs) (jm : JobManager)
      → NothingRuns jm.fsm
      → IsSound jm.fsm
      → IsSound (on_master_recovered loaded jm).0.fsm
  unfolding on_master_recovered
  recovered-IsSound (load_failed e) jm n h = h
  recovered-IsSound (jobs js) jm n h =
      recover_jobs-IsSound js jm.fsm n h (λ job f m. job_dispatched-NothingRuns job true f m)

  step-IsSound :
      KeepsId create
      → (c : Call) (st : S × JobManager) → Allowed c st.1
      → IsSound st.1.fsm
      → IsSound (step c st).1.fsm
  unfolding step on_worker_dispatched on_worker_online on_worker_offline
  step-IsSound keeps (submits new_id tp config stored) (s, jm) a h =
      submit_job-IsSound create keeps clean new_id tp config stored s jm a h
  step-IsSound keeps (ticks is_ready ws) (s, jm) a h =
      tick-IsSound create keeps clean is_ready ws s jm h
  step-IsSound keeps (recovers loaded) (s, jm) a h = recovered-IsSound loaded jm a h
  step-IsSound keeps (dispatch_ends w true) (s, jm) a h =
      from_fsm-IsSound jm (job_dispatch_failed w jm.fsm) (dispatch_failed-IsSound w jm.fsm h)
  step-IsSound keeps (dispatch_ends w false) (s, jm) a h = h
  step-IsSound keeps (comes_online w) (s, jm) a h =
      from_fsm-IsSound jm (job_online w jm.fsm) (online-IsSound w jm.fsm h)
  step-IsSound keeps (goes_offline w reason none) (s, jm) a h =
      offline-IsSound w (need_failover reason) jm.fsm h
  step-IsSound keeps (goes_offline w reason (some x)) (s, jm) a h = h

  -- With a creator that keeps the id of a job master, after any allowed calls of the job manager no job
  -- stands in two of the machine's maps, and each stands under its own id, if so it was before. Allowed
  -- is to submit a job under an id that is in no map, and to recover while no job is pending or online.
  pub run-IsSound :
      KeepsId create
      → (cs : List Call) (st : S × JobManager) → AllAllowed cs st
      → IsSound st.1.fsm
      → IsSound (run cs st).1.fsm
  unfolding run
  run-IsSound keeps [] st a h = h
  run-IsSound keeps (c ∷ cs) st a h =
      run-IsSound keeps cs (step c st) a.1 (step-IsSound keeps c st a.0 h)
