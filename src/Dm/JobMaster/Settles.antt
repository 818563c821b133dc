-- ===== src/Dm/JobMaster/Settles.antt =====
-- The worker manager's check with the job master's message agent and the job store.
use microcosm.Base.{
  ℕ, String, true, false, Option, none, some, List, ◌≡◌, ap, ◌∙◌, sym, subst, All, IsMap, lookup,
  has, is_some, String_eq, ◌==◌, ◌⊎◌, inl, inr, Outcome, returns, ◌>>=◌, Returns, Returns-bind,
  Option-cases,
}
use microcosm.Dm.Ticker.{after_tick, advance_check_time}
use microcosm.Dm.Runtime.{Job, TaskCfg, DmError}
use microcosm.Dm.Store.{Codec, TomlStore, Got, got, get}
use microcosm.Dm.Store.Coherent.{RoundTrips, IsCoherent, Keeps, get-Keeps}
use microcosm.Dm.WorkerManager.{ResourceId, CheckpointAgent, Loop, tick_impl as check_workers}
use microcosm.Dm.WorkerManager.Turns.{NoneOffline, NamesWorkers}
use microcosm.Dm.WorkerManager.Loops.{AllFitting}
use microcosm.Dm.WorkerManager.Settles.{IsSettled, tick_impl-IsSettled}
use microcosm.Dm.MessageAgent.{Outside, MessageAgent, worker_agent, create_worker, create_unless}
use microcosm.Dm.JobMaster.{JobMaster, Turn, run_workers_check}

-- The master's CreateWorker answers a worker's id whenever it has no error.
abbrev pub CreatesWithId : {M : Type 0} → Outside M → Type 0
CreatesWithId {M} outside =
    (unit : ℕ) (cfg : TaskCfg) (resources : List ResourceId) (m : M)
    → (outside.create_worker unit cfg resources m).2 ≡ none
    → ((outside.create_worker unit cfg resources m).1 == "") ≡ false

module _ {M : Type 0} (outside : Outside M) (creates : CreatesWithId outside) where
  worker_agent-NamesWorkers : NamesWorkers (worker_agent outside)
  unfolding create_worker
  worker_agent-NamesWorkers id unit cfg resources s = by_sender (lookup id s.send_handles)
    where
      by_sender :
          (o : Option String)
          → (create_unless outside id unit cfg resources s o).2 ≡ none
          → ((create_unless outside id unit cfg resources s o).1 == "") ≡ false
      by_sender none q = creates unit cfg resources s.master q
      by_sender (some v) q = absurd (cc)

  -- All tasks of the job have a worker's status and there is no other, or the next check comes after the
  -- interval for errors.
  abbrev pub IsChecked : Turn → JobMaster M → Job → JobMaster M → Type 0
  IsChecked t jm job jm' =
      AllFitting job jm'.workers
      × NoneOffline jm'.workers
      × ((All (λ entry. has entry.0 jm'.workers ≡ true) job
            × ((id : String) → has id jm'.workers ≡ true → has id job ≡ true))
          ⊎ (jm'.worker_check
              ≡ after_tick t.end_at true (advance_check_time t.start_at jm.worker_check)))

  after_loop : Turn → JobMaster M → Job → Loop (MessageAgent M) → JobMaster M
  after_loop t jm job l = record jm {
    store = record jm.store { state = some job };
    workers = l.statuses;
    agent = l.agent_state;
    worker_check =
        after_tick t.end_at (is_some l.record_error)
          (advance_check_time t.start_at jm.worker_check);
  }

  after_loop-IsChecked :
      (t : Turn) (jm : JobMaster M) (job : Job) (l : Loop (MessageAgent M))
      → IsSettled job l
      → IsChecked t jm job (after_loop t jm job l)
  unfolding after_loop
  after_loop-IsChecked t jm job l (fits, online, settled) =
      (fits, online, by_error (Option-cases l.record_error))
    where
      by_error :
          (l.record_error ≡ none) ⊎ ((e : DmError) × (l.record_error ≡ some e))
          → (All (λ entry. has entry.0 l.statuses ≡ true) job
              × ((id : String) → has id l.statuses ≡ true → has id job ≡ true))
            ⊎ (after_tick t.end_at
                  (is_some l.record_error)
                  (advance_check_time t.start_at jm.worker_check)
                ≡ after_tick t.end_at true (advance_check_time t.start_at jm.worker_check))
      by_error (inl q) = inl (settled q)
      by_error (inr (e, q)) = inr (
          ap (λ o. after_tick t.end_at (is_some o) (advance_check_time t.start_at jm.worker_check))
            q)

  -- A check of the job master's workers, where reading the metastore does not fail, the job store agrees
  -- with it on a job with each task once, the modes of the job's tasks have units, their workers run units of
  -- them, each task has one status, and creating a worker answers its id when there is no error: the
  -- check comes back; then the workers of the job's tasks still run units of the tasks' modes, no status is
  -- offline, and either each task of the job has a worker's status and each status is of a task of the
  -- job, or the next check is set for the interval after an error.
  pub run_workers_check-IsChecked :
      (codec : Codec) (checkpoint : CheckpointAgent) (t : Turn) (jm : JobMaster M) (job : Job)
      → RoundTrips codec
      → t.reading ≡ none
      → IsCoherent codec jm.store
      → Keeps codec jm.store job
      → IsMap job
      → IsMap jm.workers
      → AllFitting job jm.workers
      → Returns (run_workers_check codec outside checkpoint t jm) (IsChecked t jm job)
  unfolding run_workers_check after_loop
  run_workers_check-IsChecked codec checkpoint t jm job trips reads coherent keeps unique unique_w
        fits =
      subst (λ r. Returns (with_answer r) (IsChecked t jm job)) (sym answer)
        (Returns-bind (IsSettled job) (IsChecked t jm job)
          (check_workers (worker_agent outside) checkpoint t.check_at (got job) jm.workers jm.agent)
          (λ l. returns (after_loop t jm job l))
          (tick_impl-IsSettled (worker_agent outside) worker_agent-NamesWorkers checkpoint
            t.check_at job jm.workers jm.agent unique unique_w fits)
          (λ l settled. after_loop-IsChecked t jm job l settled))
    where
      with_answer : TomlStore × Got → Outcome (JobMaster M)
      with_answer (store, a) =
          check_workers (worker_agent outside) checkpoint t.check_at a jm.workers jm.agent >>= λ l.
          returns (record jm {
            store = store;
            workers = l.statuses;
            agent = l.agent_state;
            worker_check =
                after_tick t.end_at (is_some l.record_error)
                  (advance_check_time t.start_at jm.worker_check);
          })

      answer : get codec t.reading t.half jm.store ≡ (record jm.store { state = some job }, got job)
      answer =
          ap (λ f. get codec f t.half jm.store) reads
          ∙ get-Keeps codec trips t.half job jm.store coherent keeps
