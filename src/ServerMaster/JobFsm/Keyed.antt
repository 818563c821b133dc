-- ===== src/ServerMaster/JobFsm/Keyed.antt =====
-- A job stands under its id in each of the three maps, and no method changes that; with it no method
-- puts a job into two maps.
use microcosm.Base.{
  String, Bool, true, false, ◌≡◌, refl, inl, inr, arith, has, lookup, insert, Map, [], ◌∷◌, All,
  insert-All, delete-All, lookup-All, String_eq, if◌then◌else◌, Option-cases,
}
use microcosm.ServerMaster.JobFsm.{
  JobFsm, MasterMeta, JobHolder, WorkerHandle, Dispatch, redispatch, new_job_fsm, job_dispatched,
  job_online, job_offline, job_dispatch_failed, iter_pending_from, iter_pending_jobs,
  iter_wait_ack_from, iter_wait_ack_jobs, offline_wait_ack,
}
use microcosm.ServerMaster.JobFsm.Phase.{IsExclusiveAt}
use microcosm.ServerMaster.JobFsm.Iter.{Dispatch-cases}

abbrev pub OwnMeta : String × MasterMeta → Type 0
OwnMeta entry = entry.1.id ≡ entry.0

abbrev pub OwnHolder : String × JobHolder → Type 0
OwnHolder entry = entry.1.meta.id ≡ entry.0

pub record IsKeyed (fsm : JobFsm) : Type 0 where
  pub pending : All OwnMeta fsm.pending_jobs
  pub wait_ack : All OwnHolder fsm.wait_ack_jobs
  pub online : All OwnHolder fsm.online_jobs

pub new_job_fsm-IsKeyed : IsKeyed new_job_fsm
unfolding new_job_fsm
new_job_fsm-IsKeyed = record { pending = tt; wait_ack = tt; online = tt }

pub job_dispatched-IsKeyed :
    (job : MasterMeta) (b : Bool) (fsm : JobFsm) → IsKeyed fsm → IsKeyed (job_dispatched job b fsm)
unfolding job_dispatched
job_dispatched-IsKeyed job b fsm k = record {
  pending = k.pending;
  wait_ack = insert-All OwnHolder job.id _ fsm.wait_ack_jobs refl k.wait_ack;
  online = k.online;
}

pub job_online-IsKeyed :
    (w : WorkerHandle) (fsm : JobFsm) → IsKeyed fsm → IsKeyed (job_online w fsm).0
unfolding job_online
job_online-IsKeyed w fsm k = elim (Option-cases (lookup w.id fsm.wait_ack_jobs)) [
  | inl q ↦ rw (q, job_online) k
  | inr (job, q) ↦
      let own = lookup-All OwnHolder w.id fsm.wait_ack_jobs job q k.wait_ack in
      rw (q, job_online)
        (record {
          pending = k.pending;
          wait_ack = delete-All OwnHolder w.id fsm.wait_ack_jobs k.wait_ack;
          online = insert-All OwnHolder w.id _ fsm.online_jobs own k.online;
        })
]

pub job_dispatch_failed-IsKeyed :
    (w : WorkerHandle) (fsm : JobFsm) → IsKeyed fsm → IsKeyed (job_dispatch_failed w fsm).0
unfolding job_dispatch_failed
job_dispatch_failed-IsKeyed w fsm k = elim (Option-cases (lookup w.id fsm.wait_ack_jobs)) [
  | inl q ↦ rw (q, job_dispatch_failed) k
  | inr (job, q) ↦
      let own = lookup-All OwnHolder w.id fsm.wait_ack_jobs job q k.wait_ack in
      rw (q, job_dispatch_failed)
        (record {
          pending = insert-All OwnMeta w.id job.meta fsm.pending_jobs own k.pending;
          wait_ack = delete-All OwnHolder w.id fsm.wait_ack_jobs k.wait_ack;
          online = k.online;
        })
]

pub job_offline-IsKeyed :
    (w : WorkerHandle) (b : Bool) (fsm : JobFsm) → IsKeyed fsm → IsKeyed (job_offline w b fsm)
unfolding job_offline offline_wait_ack
job_offline-IsKeyed w b fsm k = elim (Option-cases (lookup w.id fsm.online_jobs)) [
  | inr (job, q) ↦
      let own = lookup-All OwnHolder w.id fsm.online_jobs job q k.online in
      rw (q, job_offline)
        (failover-IsKeyed b job own (record {
          pending = k.pending;
          wait_ack = k.wait_ack;
          online = delete-All OwnHolder w.id fsm.online_jobs k.online;
        }))
  | inl n ↦ elim (Option-cases (lookup w.id fsm.wait_ack_jobs)) [
    | inl q ↦ rw (n, job_offline, q, offline_wait_ack) k
    | inr (job, q) ↦
        let own = lookup-All OwnHolder w.id fsm.wait_ack_jobs job q k.wait_ack in
        rw (n, job_offline, q, offline_wait_ack)
          (failover-IsKeyed b job own (record {
            pending = k.pending;
            wait_ack = delete-All OwnHolder w.id fsm.wait_ack_jobs k.wait_ack;
            online = k.online;
          }))
  ]
]
  where
    failover-IsKeyed :
        (b : Bool) (job : JobHolder) {f : JobFsm}
        → job.meta.id ≡ w.id
        → IsKeyed f
        → IsKeyed (if b then record f { pending_jobs = insert w.id job.meta f.pending_jobs } else f)
    failover-IsKeyed true job {f} own h = record {
      pending = insert-All OwnMeta w.id job.meta f.pending_jobs own h.pending;
      wait_ack = h.wait_ack;
      online = h.online;
    }
    failover-IsKeyed false job own h = h

module _ {S E : Type 0} (fn : S → MasterMeta → S × Dispatch E) where
  iter_pending_from-IsKeyed :
      (rest : Map String MasterMeta) (s : S) (fsm : JobFsm)
      → IsKeyed fsm
      → IsKeyed (iter_pending_from fn rest s fsm).1
  unfolding iter_pending_from
  iter_pending_from-IsKeyed [] s fsm k = k
  iter_pending_from-IsKeyed ((old, job) ∷ rest) s fsm k = elim (Dispatch-cases (fn s job).1) [
    | inl (e, q) ↦ rw (q, iter_pending_from) k
    | inr (id, q) ↦
        rw (q, iter_pending_from)
          (iter_pending_from-IsKeyed rest (fn s job).0 (redispatch old job id fsm) (record {
            pending = delete-All OwnMeta old fsm.pending_jobs k.pending;
            wait_ack = insert-All OwnHolder id _ fsm.wait_ack_jobs refl k.wait_ack;
            online = k.online;
          }))
  ]

  pub iter_pending_jobs-IsKeyed :
      (s : S) (fsm : JobFsm) → IsKeyed fsm → IsKeyed (iter_pending_jobs fn s fsm).1
  unfolding iter_pending_jobs
  iter_pending_jobs-IsKeyed s fsm k = iter_pending_from-IsKeyed fsm.pending_jobs s fsm k

  iter_wait_ack_from-OwnHolder :
      (m : Map String JobHolder) (s : S)
      → All OwnHolder m
      → All OwnHolder (iter_wait_ack_from fn m s).1
  unfolding iter_wait_ack_from
  iter_wait_ack_from-OwnHolder [] s h = tt
  iter_wait_ack_from-OwnHolder ((id, job) ∷ m) s h = ground (
    arith,
    iter_wait_ack_from-OwnHolder m s h.1,
    iter_wait_ack_from-OwnHolder m (fn s job.meta).0 h.1,
  )

  has-iter_wait_ack_from :
      (j : String) (m : Map String JobHolder) (s : S)
      → has j (iter_wait_ack_from fn m s).1 ≡ has j m
  unfolding iter_wait_ack_from lookup
  has-iter_wait_ack_from j [] s = refl
  has-iter_wait_ack_from j ((id, job) ∷ m) s =
      ground (arith, has-iter_wait_ack_from j m s, has-iter_wait_ack_from j m (fn s job.meta).0)

  pub iter_wait_ack_jobs-IsKeyed :
      (s : S) (fsm : JobFsm) → IsKeyed fsm → IsKeyed (iter_wait_ack_jobs fn s fsm).1
  unfolding iter_wait_ack_jobs
  iter_wait_ack_jobs-IsKeyed s fsm k = record {
    pending = k.pending;
    wait_ack = iter_wait_ack_from-OwnHolder fsm.wait_ack_jobs s k.wait_ack;
    online = k.online;
  }

  pub iter_wait_ack_jobs_at :
      (j : String) (s : S) (fsm : JobFsm)
      → IsExclusiveAt j fsm
      → IsExclusiveAt j (iter_wait_ack_jobs fn s fsm).1
  unfolding iter_wait_ack_jobs
  iter_wait_ack_jobs_at j s fsm h = ground (arith, has-iter_wait_ack_from j fsm.wait_ack_jobs s)

-- The machine holds no job, or only such as wait for an answer.
abbrev pub NothingRuns : JobFsm → Type 0
NothingRuns fsm = (j : String) → (has j fsm.pending_jobs ≡ false) × (has j fsm.online_jobs ≡ false)

pub job_dispatched-NothingRuns :
    (job : MasterMeta) (b : Bool) (fsm : JobFsm)
    → NothingRuns fsm
    → NothingRuns (job_dispatched job b fsm)
unfolding job_dispatched
job_dispatched-NothingRuns job b fsm n j = n j

pub new_job_fsm-NothingRuns : NothingRuns new_job_fsm
unfolding new_job_fsm lookup
new_job_fsm-NothingRuns j = (refl, refl)
