-- ===== src/Dm/JobMaster/Agents.antt =====
-- The message agent as the worker agent of the worker manager and the task agent of the task manager.
use microcosm.Base.{
  ℕ, String, Bool, true, false, Option, none, some, List, [], ◌∷◌, ◌≡◌, refl, ap, ◌∙◌, sym, subst,
  Bool-cases, Map, lookup, insert, delete, lookup-insert, insert-IsMap, delete-IsMap, String_eq,
  ◌==◌, eq_iff, if◌then◌else◌, ◌⊎◌, inl, inr,
}
use microcosm.Dm.Runtime.{
  TaskCfg, TaskStage, stage_running, stage_paused, TaskStatus, WorkerStatus, worker_online,
  init_worker_status, DmError,
}
use microcosm.Dm.Store.{Got, got, get_failed}
use microcosm.Dm.TaskManager.{tick_impl as check_tasks}
use microcosm.Dm.TaskManager.Operates.{deviating, operate_all, tick_impl-operate_all}
use microcosm.Dm.WorkerManager.{
  ResourceId, CheckpointAgent, update_worker_status, Loop, when_stopped, stop_worker, create_worker,
  tick_impl as check_workers,
}
use microcosm.Dm.WorkerManager.Keeps.{IfReturns, tick_impl-keeps}
use microcosm.Dm.MessageAgent.{
  Outside, MessageAgent, create_unless, stop_sender, operate_sender, operate_task, worker_agent,
}
use microcosm.Dm.MessageAgent
use microcosm.Dm.JobMaster.Agrees.{
  Agrees, shrinks-Agrees, delete-Shrinks, remove_offline_workers-Agrees,
}

-- A status for a task that has no handle.
pub unheld-Agrees :
    (handles : Map String String) (workers : Map String WorkerStatus) (id : String)
    (w : WorkerStatus)
    → lookup id handles ≡ none
    → Agrees handles workers
    → Agrees handles (insert id w workers)
unheld-Agrees handles workers id w unheld h =
    (insert-IsMap id w workers h.0, λ j x v at held. by_key j x v at held (Bool-cases (id == j)))
  where
    by_key :
        (j : String) (x : WorkerStatus) (v : String)
        → lookup j (insert id w workers) ≡ some x
        → lookup j handles ≡ some v
        → ((id == j) ≡ true) ⊎ ((id == j) ≡ false)
        → (x.id ≡ v) × (x.stage ≡ worker_online)
    by_key j x v at held (inl q) =
        let gone : lookup j handles ≡ none =
          subst (λ k. lookup k handles ≡ none) ((eq_iff id j).0 q) unheld in
        absurd (cc)
    by_key j x v at held (inr q) =
        h.1 j x v
          (sym (lookup-insert id j w workers ∙ ap (λ b. if b then some w else lookup j workers) q)
            ∙ at)
          held

module _ {M : Type 0} (outside : Outside M) where
  -- StopWorker changes no handle.
  stop_keeps :
      (id worker_id : String) (agent : MessageAgent M) (sender : Option String)
      → (stop_sender outside id worker_id agent sender).0.send_handles ≡ agent.send_handles
  stop_keeps id worker_id agent none = refl
  stop_keeps id worker_id agent (some sender) = elim (Bool-cases (sender == worker_id)) [
    | inl q ↦ rw q refl
    | inr q ↦ rw q refl
  ]

  stops :
      (id worker_id : String) (l : Loop (MessageAgent M))
      → Agrees l.agent_state.send_handles l.statuses
      → Agrees
          (stop_worker (worker_agent outside) id worker_id l).agent_state.send_handles
          (stop_worker (worker_agent outside) id worker_id l).statuses
  unfolding stop_worker MessageAgent.stop_worker
  stops id worker_id l h =
      by_result
        (stop_sender outside id worker_id l.agent_state (lookup id l.agent_state.send_handles))
        (stop_keeps id worker_id l.agent_state (lookup id l.agent_state.send_handles))
    where
      by_result :
          (r : MessageAgent M × Option DmError)
          → r.0.send_handles ≡ l.agent_state.send_handles
          → Agrees (when_stopped id l r).agent_state.send_handles (when_stopped id l r).statuses
      by_result (s, some x) same = subst (λ hs. Agrees hs l.statuses) (sym same) h
      by_result (s, none) same =
          subst (λ hs. Agrees hs (delete id l.statuses)) (sym same)
            (shrinks-Agrees l.agent_state.send_handles (delete id l.statuses) l.statuses
              (delete-IsMap id l.statuses h.0) (delete-Shrinks id l.statuses) h)

  creates :
      (now : ℕ) (id : String) (unit : ℕ) (cfg : TaskCfg) (resources : List ResourceId)
      (l : Loop (MessageAgent M))
      → Agrees l.agent_state.send_handles l.statuses
      → Agrees
          (create_worker
            (worker_agent outside)
            now
            id
            unit
            cfg
            resources
            l).agent_state.send_handles
          (create_worker (worker_agent outside) now id unit cfg resources l).statuses
  unfolding create_worker update_worker_status MessageAgent.create_worker
  creates now id unit cfg resources l h = by_sender (lookup id l.agent_state.send_handles) refl
    where
      by_sender :
          (o : Option String)
          → lookup id l.agent_state.send_handles ≡ o
          → Agrees (create_unless outside id unit cfg resources l.agent_state o).0.send_handles (
              if (create_unless outside id unit cfg resources l.agent_state o).1 == ""
              then l.statuses
              else insert id
                  (init_worker_status now id unit
                    (create_unless outside id unit cfg resources l.agent_state o).1)
                  l.statuses)
      by_sender (some sender) held = h
      by_sender none unheld =
          by_name ((outside.create_worker unit cfg resources l.agent_state.master).1 == "")
        where
          by_name :
              (b : Bool)
              → Agrees l.agent_state.send_handles (
                  if b
                  then l.statuses
                  else insert id
                      (init_worker_status now id unit
                        (outside.create_worker unit cfg resources l.agent_state.master).1)
                      l.statuses)
          by_name true = h
          by_name false =
              unheld-Agrees l.agent_state.send_handles l.statuses id
                (init_worker_status now id unit
                  (outside.create_worker unit cfg resources l.agent_state.master).1)
                unheld h

  -- A check of the worker manager.
  pub check_workers-Agrees :
      (checkpoint : CheckpointAgent) (now : ℕ) (answer : Got) (m : Map String WorkerStatus)
      (agent : MessageAgent M)
      → Agrees agent.send_handles m
      → IfReturns
          (λ l. Agrees l.agent_state.send_handles l.statuses)
          (check_workers (worker_agent outside) checkpoint now answer m agent)
  check_workers-Agrees checkpoint now answer m agent h =
      tick_impl-keeps (worker_agent outside) (λ l. Agrees l.agent_state.send_handles l.statuses)
        stops creates (λ e l k. k) checkpoint now answer m agent
        (remove_offline_workers-Agrees now agent.send_handles m h)

  operate_sender_keeps :
      (id : String) (stage : TaskStage) (agent : MessageAgent M) (sender : Option String)
      → (operate_sender outside id stage agent sender).0.send_handles ≡ agent.send_handles
  operate_sender_keeps id stage agent none = refl
  operate_sender_keeps id stage agent (some sender) = refl

  operate_keeps :
      (agent : MessageAgent M) (id : String) (stage : TaskStage)
      → (operate_task outside agent id stage).0.send_handles ≡ agent.send_handles
  unfolding operate_task
  operate_keeps agent id stage_running =
      operate_sender_keeps id stage_running agent (lookup id agent.send_handles)
  operate_keeps agent id stage_paused =
      operate_sender_keeps id stage_paused agent (lookup id agent.send_handles)
  operate_keeps agent id TaskStage.stage_init = refl
  operate_keeps agent id TaskStage.stage_finished = refl
  operate_keeps agent id TaskStage.stage_unscheduled = refl

  operate_all_keeps :
      (ops : List (String × TaskStage)) (agent : MessageAgent M)
      → (operate_all (operate_task outside) ops agent).send_handles ≡ agent.send_handles
  unfolding operate_all
  operate_all_keeps [] agent = refl
  operate_all_keeps ((id, stage) ∷ rest) agent =
      operate_all_keeps rest (operate_task outside agent id stage).0 ∙ operate_keeps agent id stage

  -- A check of the task manager changes no handle.
  pub check_tasks_keeps :
      (answer : Got) (tasks : Map String TaskStatus) (agent : MessageAgent M)
      → (check_tasks (operate_task outside) answer tasks agent).1.send_handles ≡ agent.send_handles
  unfolding check_tasks
  check_tasks_keeps (got job) tasks agent =
      ap (λ a. a.send_handles) (tick_impl-operate_all (operate_task outside) job tasks agent).1
      ∙ operate_all_keeps (deviating job tasks) agent
  check_tasks_keeps (get_failed e) tasks agent = refl
