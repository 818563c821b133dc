-- ===== src/Dm/MessageAgent.antt =====
-- jobmaster/dm/message_agent.go. A send handle is the id of its worker; what the master's CreateWorker and
-- a handle's SendMessage do is an argument, with a state of its own. A message's topic says its receiver.
use microcosm.Base.{
  ℕ, String, Option, none, some, List, [], ◌∷◌, Map, lookup, insert, delete, String_eq, ◌==◌,
  if◌then◌else◌,
}
use microcosm.Dm.Runtime.{
  TaskCfg, TaskStage, stage_running, stage_paused, DmError, worker_exists, worker_missing,
  worker_mismatch, invalid_stage,
}
use microcosm.Dm.WorkerManager.{ResourceId, WorkerAgent}

-- StatusChangeRequest, which always expects the worker to stop here, and OperateTaskMessage.
pub data Message : Type 0 where
  stop_request : Message
  operate_message : String → TaskStage → Message

-- The master, and what the handle of a worker does with a message.
pub record Outside (M : Type 0) : Type 0 where
  pub create_worker : ℕ → TaskCfg → List ResourceId → M → M × String × Option DmError
  pub send_message : String → Message → M → M × Option DmError

pub record MessageAgent (M : Type 0) : Type 0 where
  pub send_handles : Map String String
  pub master : M

module _ {M : Type 0} where
  unfoldable pub update_worker_handle : String → Option String → MessageAgent M → MessageAgent M
  update_worker_handle task_id none agent = record agent {
    send_handles = delete task_id agent.send_handles;
  }
  update_worker_handle task_id (some worker_id) agent = record agent {
    send_handles = insert task_id worker_id agent.send_handles;
  }

  unfoldable pub with_senders : Map String String → MessageAgent M → MessageAgent M
  with_senders [] agent = agent
  with_senders ((task, sender) ∷ rest) agent =
      with_senders rest (update_worker_handle task (some sender) agent)

  unfoldable pub new_message_agent : Map String String → M → MessageAgent M
  new_message_agent init_senders m =
      with_senders init_senders (record { send_handles = []; master = m })

module _ {M : Type 0} (outside : Outside M) where
  -- CreateWorker, of the handle that there is for the task.
  abbrev pub create_unless :
      String
      → ℕ
      → TaskCfg
      → List ResourceId
      → MessageAgent M
      → Option String
      → MessageAgent M × String × Option DmError
  create_unless task_id unit cfg resources agent (some _) =
      (agent, "", some (worker_exists task_id))
  create_unless task_id unit cfg resources agent none =
      let (m, worker_id, e) = outside.create_worker unit cfg resources agent.master in
      (record agent { master = m }, worker_id, e)

  unfoldable pub create_worker :
      String
      → ℕ
      → TaskCfg
      → List ResourceId
      → MessageAgent M
      → MessageAgent M × String × Option DmError
  create_worker task_id unit cfg resources agent =
      create_unless task_id unit cfg resources agent (lookup task_id agent.send_handles)

  abbrev pub send_to : String → Message → MessageAgent M → MessageAgent M × Option DmError
  send_to worker_id message agent =
      let (m, e) = outside.send_message worker_id message agent.master in
      (record agent { master = m }, e)

  -- StopWorker, of the handle that there is for the task.
  abbrev pub stop_sender :
      String → String → MessageAgent M → Option String → MessageAgent M × Option DmError
  stop_sender task_id worker_id agent none = (agent, some (worker_missing task_id))
  stop_sender task_id worker_id agent (some sender) =
      if sender == worker_id
      then send_to sender stop_request agent
      else (agent, some (worker_mismatch worker_id sender))

  unfoldable pub stop_worker : String → String → MessageAgent M → MessageAgent M × Option DmError
  stop_worker task_id worker_id agent =
      stop_sender task_id worker_id agent (lookup task_id agent.send_handles)

  abbrev pub operate_sender :
      String → TaskStage → MessageAgent M → Option String → MessageAgent M × Option DmError
  operate_sender task_id stage agent none = (agent, some (worker_missing task_id))
  operate_sender task_id stage agent (some sender) =
      send_to sender (operate_message task_id stage) agent

  unfoldable pub operate_task :
      MessageAgent M → String → TaskStage → MessageAgent M × Option DmError
  operate_task agent task_id stage =
      let sent = operate_sender task_id stage agent (lookup task_id agent.send_handles) in
      elim stage [
        | stage_running ↦ sent
        | stage_paused ↦ sent
        | _ ↦ (agent, some (invalid_stage task_id))
      ]

  -- The worker agent of the worker manager.
  abbrev pub worker_agent : WorkerAgent (MessageAgent M)
  worker_agent = record { create = create_worker; stop = stop_worker }
