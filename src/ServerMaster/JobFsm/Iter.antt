-- ===== src/ServerMaster/JobFsm/Iter.antt =====
-- The two loops that dispatch jobs again.
use microcosm.Base.{
  String, false, none, Option, ◌≡◌, refl, ◌⊎◌, inl, inr, arith, has, lookup, Map, List, [], ◌∷◌,
  map, All, eq_iff, if◌then◌else◌, lookup-delete, String_eq, ◌∙◌, All-mono, keys-has,
}
use microcosm.ServerMaster.JobFsm.{
  JobFsm, MasterMeta, JobHolder, WorkerHandle, Dispatch, dispatched_as, refused, redispatch,
  iter_pending_from, iter_pending_jobs, iter_wait_ack_from, iter_wait_ack_jobs,
}
use microcosm.ServerMaster.JobFsm.Phase.{IsExclusiveAt, maps}

-- CreateWorker gives a job master the id of its metadata.
abbrev pub KeepsId : {S E : Type 0} → (S → MasterMeta → S × Dispatch E) → Type 0
KeepsId {S} {E} fn =
    (s : S) (job : MasterMeta) (id : String) → (fn s job).1 ≡ dispatched_as id → id ≡ job.id

abbrev pub IsKeyed : Map String MasterMeta → Type 0
IsKeyed = All λ entry. entry.1.id ≡ entry.0

pub Dispatch-cases :
    {E : Type 0} (a : Dispatch E)
    → ((e : E) × (a ≡ refused e)) ⊎ ((id : String) × (a ≡ dispatched_as id))
Dispatch-cases (refused e) = inl (e, refl)
Dispatch-cases (dispatched_as id) = inr (id, refl)

redispatch_at :
    (j old : String) (job : MasterMeta) (id : String) (fsm : JobFsm)
    → id ≡ old
    → has old fsm.online_jobs ≡ false
    → IsExclusiveAt j fsm
    → IsExclusiveAt j (redispatch old job id fsm)
redispatch_at j old job id fsm e o h = grind (maps, eq_iff old j, eq_iff id j)

module _ {S E : Type 0} (fn : S → MasterMeta → S × Dispatch E) where
  iter_pending_from_at :
      KeepsId fn
      → (j : String) (rest : Map String MasterMeta) (s : S) (fsm : JobFsm) → IsKeyed rest
      → All (λ entry. has entry.0 fsm.online_jobs ≡ false) rest
      → IsExclusiveAt j fsm
      → IsExclusiveAt j (iter_pending_from fn rest s fsm).1
  unfolding iter_pending_from
  iter_pending_from_at keeps j [] s fsm k o h = h
  iter_pending_from_at keeps j ((old, job) ∷ rest) s fsm k o h =
      elim (Dispatch-cases (fn s job).1) [
        | inl (e, q) ↦ rw (q, iter_pending_from) h
        | inr (id, q) ↦
            rw (q, iter_pending_from)
              (iter_pending_from_at keeps j rest (fn s job).0 (redispatch old job id fsm) k.1 o.1
                (redispatch_at j old job id fsm (keeps s job id q ∙ k.0) o.0 h))
      ]

  -- IterPendingJobs leaves no job in two maps, also when it stops at an error, if none was before, a job
  -- is dispatched under its own id, and a pending job stands under its id.
  pub iter_pending_jobs-IsExclusive :
      KeepsId fn
      → (s : S) (fsm : JobFsm) → IsKeyed fsm.pending_jobs
      → ((j : String) → IsExclusiveAt j fsm)
      → (j : String) → IsExclusiveAt j (iter_pending_jobs fn s fsm).1
  unfolding iter_pending_jobs
  iter_pending_jobs-IsExclusive keeps s fsm k h j =
      iter_pending_from_at keeps j fsm.pending_jobs s fsm k
        (All-mono fsm.pending_jobs (λ entry own. ground (arith, h entry.0))
          (keys-has fsm.pending_jobs))
        (h j)

  -- A run that meets no error takes every visited job out of the pending map, and no other.
  lookup-iter_pending_from :
      (j : String) (rest : Map String MasterMeta) (s : S) (fsm : JobFsm)
      → (iter_pending_from fn rest s fsm).2 ≡ none
      → lookup j (iter_pending_from fn rest s fsm).1.pending_jobs
        ≡ (if has j rest then none else lookup j fsm.pending_jobs)
  unfolding iter_pending_from lookup
  lookup-iter_pending_from j [] s fsm ok = refl
  lookup-iter_pending_from j ((old, job) ∷ rest) s fsm ok = elim (Dispatch-cases (fn s job).1) [
    | inl (e, q) ↦ ground arith
    | inr (id, q) ↦ ground (
      arith,
      eq_iff old j,
      lookup-iter_pending_from j rest (fn s job).0 (redispatch old job id fsm),
      lookup-delete old j fsm.pending_jobs,
    )
  ]

  -- IterPendingJobs that succeeds leaves no job pending.
  pub iter_pending_jobs_empties :
      (s : S) (fsm : JobFsm)
      → (iter_pending_jobs fn s fsm).2 ≡ none
      → (j : String) → lookup j (iter_pending_jobs fn s fsm).1.pending_jobs ≡ none
  unfolding iter_pending_jobs
  iter_pending_jobs_empties s fsm ok j =
      ground (arith, lookup-iter_pending_from j fsm.pending_jobs s fsm ok)

-- What IterWaitAckJobs never changes of an entry.
abbrev pub kept : Map String JobHolder → List (String × Option WorkerHandle × MasterMeta)
kept = map λ entry. (entry.0, entry.1.handle, entry.1.meta)

module _ {S E : Type 0} (fn : S → MasterMeta → S × Dispatch E) where
  iter_wait_ack_from-kept :
      (m : Map String JobHolder) (s : S) → kept (iter_wait_ack_from fn m s).1 ≡ kept m
  unfolding iter_wait_ack_from
  iter_wait_ack_from-kept [] s = refl
  iter_wait_ack_from-kept ((id, job) ∷ m) s =
      ground (arith, iter_wait_ack_from-kept m s, iter_wait_ack_from-kept m (fn s job.meta).0)

  iter_wait_ack_from-settled :
      (m : Map String JobHolder) (s : S)
      → (iter_wait_ack_from fn m s).2 ≡ none
      → All (λ entry. entry.1.add_from_failover ≡ false) (iter_wait_ack_from fn m s).1
  unfolding iter_wait_ack_from
  iter_wait_ack_from-settled [] s ok = tt
  iter_wait_ack_from-settled ((id, job) ∷ m) s ok =
      ground (arith, iter_wait_ack_from-settled m s, iter_wait_ack_from-settled m (fn s job.meta).0)

  -- IterWaitAckJobs keeps every job, with its handle and its metadata, also when it stops early;
  -- if it meets no error no job is left that was added by a failover.
  pub iter_wait_ack_jobs_settles :
      (s : S) (fsm : JobFsm)
      → let (_, after, e) = iter_wait_ack_jobs fn s fsm in
        (kept after.wait_ack_jobs ≡ kept fsm.wait_ack_jobs)
        × (after.pending_jobs ≡ fsm.pending_jobs)
        × (after.online_jobs ≡ fsm.online_jobs)
        × (e ≡ none → All (λ entry. entry.1.add_from_failover ≡ false) after.wait_ack_jobs)
  unfolding iter_wait_ack_jobs
  iter_wait_ack_jobs_settles s fsm = (
    iter_wait_ack_from-kept fsm.wait_ack_jobs s,
    refl,
    refl,
    iter_wait_ack_from-settled fsm.wait_ack_jobs s,
  )
