-- ===== src/Dm/TaskManager.antt =====
-- jobmaster/dm/task_manager.go. The task agent's OperateTask threads a state of its own; the next check
-- that OperateTask of the manager asks for is in JobMaster.
pub mod Operates
use microcosm.Base.{
  String, Bool, true, false, not, ◌||◌, Option, none, some, List, [], ◌∷◌, Map, lookup, insert, has,
  String_eq, if◌then◌else◌,
}
use microcosm.Dm.Runtime.{
  Job, Task, JobCfg, new_job, TaskStage, stage_running, stage_paused, stage_unscheduled, same_stage,
  TaskStatus, DmError, unknown_operate_type, status_missing,
}
use microcosm.Dm.Store.{
  Codec, Fault, TomlStore, Got, got, get_failed, put, delete_state, update_stages,
}

pub data OperateType : Type 0 where
  create pause resume update delete_op : OperateType
  other_type : OperateType

unfoldable pub operate_task :
    Codec
    → Fault
    → Fault
    → Job
    → OperateType
    → JobCfg
    → List String
    → TomlStore
    → TomlStore × Option DmError
operate_task codec reading writing half op cfg tasks store = elim op [
  | create ↦ put codec writing (new_job cfg) store
  | update ↦ put codec writing (new_job cfg) store
  | delete_op ↦ delete_state codec writing store
  | resume ↦ update_stages codec reading writing half tasks stage_running store
  | pause ↦ update_stages codec reading writing half tasks stage_paused store
  | other_type ↦ (store, some unknown_operate_type)
]

unfoldable pub update_task_status : TaskStatus → Map String TaskStatus → Map String TaskStatus
update_task_status s tasks = insert s.task s tasks

unfoldable pub new_tasks_of : List TaskStatus → Map String TaskStatus → Map String TaskStatus
new_tasks_of [] tasks = tasks
new_tasks_of (s ∷ rest) tasks = new_tasks_of rest (update_task_status s tasks)

-- removeTaskStatus: the entries of the job's tasks stay.
unfoldable pub remove_task_status : Job → Map String TaskStatus → Map String TaskStatus
remove_task_status job [] = []
remove_task_status job ((id, s) ∷ rest) =
    let kept = remove_task_status job rest in if has id job then (id, s) ∷ kept else kept

unfoldable pub task_as_expected : Task → TaskStatus → Bool
task_as_expected t s = same_stage t.stage s.stage

abbrev pub is_unscheduled : TaskStatus → Bool
is_unscheduled s = same_stage s.stage stage_unscheduled

module _ {S : Type 0} (operate : S → String → TaskStage → S × Option DmError) where
  -- A turn of the loop, over the agent's state and the recorded error.
  abbrev pub check_task :
      String → Task → Option TaskStatus → S → Option DmError → S × Option DmError
  check_task id t none s e = (s, some (status_missing id))
  check_task id t (some running) s e =
      if is_unscheduled running
      then (s, some (status_missing id))
      else if task_as_expected t running
      then (s, e)
      else (let (s', x) = operate s id t.stage in elim x [ none ↦ (s', e) | some y ↦ (s', some y) ])

  unfoldable pub check_and_operate_tasks :
      Job → Map String TaskStatus → S → Option DmError → S × Option DmError
  check_and_operate_tasks [] tasks s e = (s, e)
  check_and_operate_tasks ((id, t) ∷ rest) tasks s e =
      let (s', e') = check_task id t (lookup id tasks) s e in
      check_and_operate_tasks rest tasks s' e'

  -- TickImpl, of what the job store answers.
  unfoldable pub tick_impl :
      Got → Map String TaskStatus → S → Map String TaskStatus × S × Option DmError
  tick_impl (get_failed e) tasks s = ([], s, some e)
  tick_impl (got job) tasks s =
      let kept = remove_task_status job tasks in
      let (s', e) = check_and_operate_tasks job kept s none in (kept, s', e)
