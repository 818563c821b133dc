-- ===== src/Dm/JobMaster/Reach.antt =====
-- The job masters that the framework's calls lead to.
use microcosm.Base.{
  ℕ, String, Bool, true, false, Option, none, some, List, ◌≡◌, refl, ap, ◌∙◌, sym, subst,
  Bool-cases, Map, lookup, insert, delete, lookup-delete_self, lookup-delete, String_eq, ◌==◌,
  ==-self, if◌then◌else◌, if_of, ◌⊎◌, inl, inr, is_some, returns,
}
use microcosm.Dm.Ticker.{is_due, after_tick, advance_check_time}
use microcosm.Dm.Runtime.{
  Job, JobCfg, TaskStatus, unmarshal_task_status, stage_finished, same_stage, WorkerStatus,
  worker_online, worker_offline, worker_finished, new_offline_status, DmError, worker_mismatch,
  worker_missing,
}
use microcosm.Dm.Store.{Codec, TomlStore, Fault, get}
use microcosm.Dm.TaskManager.{OperateType, operate_task as operate_job}
use microcosm.Dm.WorkerManager.{CheckpointAgent, update_worker_status, tick_impl as check_workers}
use microcosm.Dm.WorkerManager.Keeps.{IfReturns, IfReturns-then}
use microcosm.Dm.MessageAgent.{
  Outside, stop_request, update_worker_handle, worker_agent, stop_worker, stop_sender, send_to,
}
use microcosm.Dm.JobMaster.{
  WorkerHandle, JobMaster, create_components, operate, on_worker_dispatched, on_worker_online,
  on_worker_offline, on_worker_finished, update_worker, when_operated, online_with, offline_with,
  lost_worker, status_of, Turn, run_workers_check, tick_workers, run_tasks_check, tick_tasks, tick,
}
use microcosm.Dm.JobMaster.Agrees.{Agrees, remove_by_id-Agrees}
use microcosm.Dm.JobMaster.Agents.{check_workers-Agrees, check_tasks_keeps, unheld-Agrees}
use microcosm.Dm.JobMaster.Init.{online-Agrees, create_components-Agrees}

module _ {M : Type 0} (codec : Codec) (outside : Outside M) (checkpoint : CheckpointAgent) where
  -- A call of the framework or of a user, or what the master does meanwhile.
  pub data Step : JobMaster M → JobMaster M → Type 0 where
    operated :
        (reading writing : Fault) (half : Job) (now : ℕ) (op : OperateType) (cfg : JobCfg)
        (tasks : List String)
        → {jm : JobMaster M} → Step jm (operate codec reading writing half now op cfg tasks jm).0
    dispatched :
        (now : ℕ) (worker : WorkerHandle) (failed : Bool)
        → {jm : JobMaster M} → Step jm (on_worker_dispatched now worker failed jm)
    online : (worker : WorkerHandle) → {jm : JobMaster M} → Step jm (on_worker_online worker jm).0
    offline :
        (now : ℕ) (worker : WorkerHandle)
        → {jm : JobMaster M} → Step jm (on_worker_offline now worker jm).0
    ticked :
        (t u : Turn)
        → {jm jm' : JobMaster M} → tick codec outside checkpoint t u jm ≡ returns jm'
        → Step jm jm'
    meanwhile :
        (m : M)
        → {jm : JobMaster M} → Step jm (record jm { agent = record jm.agent { master = m } })

  -- From createComponents, at the start or at a recovery.
  pub data Reached : JobMaster M → Type 0 where
    created :
        (now : ℕ) (kept : Option String) (m : M) (handles : List WorkerHandle)
        → {jm : JobMaster M} → create_components now kept m handles ≡ some jm
        → Reached jm
    stepped : {jm jm' : JobMaster M} → Reached jm → Step jm jm' → Reached jm'

  abbrev pub Sound : JobMaster M → Type 0
  Sound jm = Agrees jm.agent.send_handles jm.workers

  -- The statuses of a task whose handle goes.
  gone-Agrees :
      (handles : Map String String) (workers : Map String WorkerStatus) (id : String)
      (w : WorkerStatus)
      → Agrees handles workers
      → Agrees (delete id handles) (insert id w workers)
  gone-Agrees handles workers id w h =
      unheld-Agrees (delete id handles) workers id w (lookup-delete_self id handles)
        (h.0, λ j x v at held. h.1 j x v at (still j v held (Bool-cases (id == j))))
    where
      still :
          (j v : String)
          → lookup j (delete id handles) ≡ some v
          → ((id == j) ≡ true) ⊎ ((id == j) ≡ false)
          → lookup j handles ≡ some v
      still j v held (inl q) =
          let gone : lookup j (delete id handles) ≡ none =
            lookup-delete id j handles ∙ ap (λ b. if b then none else lookup j handles) q in
          absurd (cc)
      still j v held (inr q) =
          sym (lookup-delete id j handles ∙ ap (λ b. if b then none else lookup j handles) q) ∙ held

  when_operated-Sound :
      (now : ℕ) (jm : JobMaster M) (r : TomlStore × Option DmError)
      → Sound jm
      → Sound (when_operated now jm r).0
  when_operated-Sound now jm (store, none) h = h
  when_operated-Sound now jm (store, some x) h = h

  dispatched-Sound :
      (now : ℕ) (worker : WorkerHandle) (failed : Bool) (jm : JobMaster M)
      → Sound jm
      → Sound (on_worker_dispatched now worker failed jm)
  unfolding on_worker_dispatched
  dispatched-Sound now worker true jm h =
      remove_by_id-Agrees worker.id jm.agent.send_handles jm.workers h
  dispatched-Sound now worker false jm h = h

  lost-Sound :
      (s : TaskStatus) (w : WorkerStatus) (jm : JobMaster M)
      → w.task_id ≡ s.task
      → Sound jm
      → Sound (update_worker s w none jm)
  unfolding update_worker_status update_worker_handle
  lost-Sound s w jm same h =
      subst (λ id. Agrees (delete s.task jm.agent.send_handles) (insert id w jm.workers)) (sym same)
        (gone-Agrees jm.agent.send_handles jm.workers s.task w h)

  online_with-Sound :
      (worker : WorkerHandle) (jm : JobMaster M) (o : Option TaskStatus)
      → Sound jm
      → Sound (online_with worker jm o).0
  unfolding update_worker_status update_worker_handle
  online_with-Sound worker jm none h = h
  online_with-Sound worker jm (some s) h =
      let w = status_of s worker.id worker_online in
      elim (Bool-cases worker.is_tombstone) [
        | inl dead ↦ rw dead (lost-Sound s w jm refl h)
        | inr live ↦
            rw live (online-Agrees jm.agent.send_handles jm.workers s.task worker.id w refl refl h)
      ]

  offline_with-Sound :
      (now : ℕ) (worker : WorkerHandle) (jm : JobMaster M) (o : Option TaskStatus)
      → Sound jm
      → Sound (offline_with now worker jm o).0
  unfolding on_worker_finished
  offline_with-Sound now worker jm none h = h
  offline_with-Sound now worker jm (some s) h =
      if_of Sound (same_stage s.stage stage_finished) (on_worker_finished now s worker jm)
        (lost_worker now s worker jm)
        (lost-Sound s (status_of s worker.id worker_finished) jm refl h)
        (lost-Sound (new_offline_status s.task) (status_of s worker.id worker_offline) jm refl h)

  run_workers_check-Sound :
      (t : Turn) (jm : JobMaster M)
      → Sound jm
      → IfReturns Sound (run_workers_check codec outside checkpoint t jm)
  unfolding run_workers_check
  run_workers_check-Sound t jm h =
      let (store, answer) = get codec t.reading t.half jm.store in
      IfReturns-then (λ l. Agrees l.agent_state.send_handles l.statuses) Sound
        (check_workers (worker_agent outside) checkpoint t.check_at answer jm.workers jm.agent)
        (λ l. returns (record jm {
          store = store;
          workers = l.statuses;
          agent = l.agent_state;
          worker_check =
              after_tick t.end_at (is_some l.record_error)
                (advance_check_time t.start_at jm.worker_check);
        }))
        (check_workers-Agrees outside checkpoint t.check_at answer jm.workers jm.agent h) (λ l k. k)

  tick_workers-Sound :
      (t : Turn) (jm : JobMaster M)
      → Sound jm
      → IfReturns Sound (tick_workers codec outside checkpoint t jm)
  unfolding tick_workers
  tick_workers-Sound t jm h =
      if_of (IfReturns Sound) (is_due t.guard_at jm.worker_check)
        (run_workers_check codec outside checkpoint t jm) (returns jm)
        (run_workers_check-Sound t jm h) h

  tick_tasks-Sound :
      (t : Turn) (jm : JobMaster M) → Sound jm → Sound (tick_tasks codec outside checkpoint t jm)
  unfolding tick_tasks run_tasks_check
  tick_tasks-Sound t jm h =
      if_of Sound (is_due t.guard_at jm.task_check) (run_tasks_check codec outside checkpoint t jm)
        jm
        (subst (λ hs. Agrees hs jm.workers)
          (sym
            (check_tasks_keeps outside (get codec t.reading t.half jm.store).1 jm.tasks jm.agent))
          h)
        h

  tick-Sound :
      (t u : Turn) (jm : JobMaster M)
      → Sound jm
      → IfReturns Sound (tick codec outside checkpoint t u jm)
  unfolding tick
  tick-Sound t u jm h =
      IfReturns-then Sound Sound (tick_workers codec outside checkpoint t jm)
        (λ mid. returns (tick_tasks codec outside checkpoint u mid)) (tick_workers-Sound t jm h)
        (λ mid k. tick_tasks-Sound u mid k)

  Step-Sound : {jm jm' : JobMaster M} → Step jm jm' → Sound jm → Sound jm'
  unfolding operate on_worker_online on_worker_offline
  Step-Sound {jm} (operated reading writing half now op cfg tasks) h =
      when_operated-Sound now jm (operate_job codec reading writing half op cfg tasks jm.store) h
  Step-Sound {jm} (dispatched now worker failed) h = dispatched-Sound now worker failed jm h
  Step-Sound {jm} (online worker) h =
      online_with-Sound worker jm (unmarshal_task_status worker.ext) h
  Step-Sound {jm} (offline now worker) h =
      offline_with-Sound now worker jm (unmarshal_task_status worker.ext) h
  Step-Sound {jm} (ticked t u q) h = subst (IfReturns Sound) q (tick-Sound t u jm h)
  Step-Sound (meanwhile m) h = h

  -- In every job master that is reached, each task has one worker status, and where the message agent holds
  -- a handle for a task and there is a status for it, that is the status of the handle's worker, online.
  pub Reached-Sound : {jm : JobMaster M} → Reached jm → Sound jm
  Reached-Sound {jm} (created now kept m handles q) =
      create_components-Agrees now kept m handles jm q
  Reached-Sound (stepped r step) = Step-Sound step (Reached-Sound r)

  -- For a worker that the job master knows the status of, the message agent sends it the request to stop,
  -- or there is no handle for the task: StopWorker never answers that the ids differ.
  pub Reached-stop_worker :
      {jm : JobMaster M} (id : String) (w : WorkerStatus)
      → Reached jm
      → lookup id jm.workers ≡ some w
      → stop_worker outside id w.id jm.agent ≡ (elim (lookup id jm.agent.send_handles) [
        | none ↦ (jm.agent, some (worker_missing id))
        | some _ ↦ send_to outside w.id stop_request jm.agent
      ])
  unfolding stop_worker
  Reached-stop_worker {jm} id w r at = by_sender (lookup id jm.agent.send_handles) refl
    where
      by_sender :
          (o : Option String)
          → lookup id jm.agent.send_handles ≡ o
          → stop_sender outside id w.id jm.agent o ≡ (elim o [
            | none ↦ (jm.agent, some (worker_missing id))
            | some _ ↦ send_to outside w.id stop_request jm.agent
          ])
      by_sender none q = refl
      by_sender (some v) q =
          let same : w.id ≡ v = ((Reached-Sound r).1 id w v at q).0 in
          subst
            (λ x.
              stop_sender outside id w.id jm.agent (some x)
              ≡ send_to outside w.id stop_request jm.agent)
            same
            (ap
              (λ b.
                if b
                then send_to outside w.id stop_request jm.agent
                else (jm.agent, some (worker_mismatch w.id w.id)))
              (==-self w.id))
