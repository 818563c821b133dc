-- ===== src/Dm/Runtime.antt =====
-- jobmaster/dm/runtime, metadata/job.go and the parts of config/config.go that they read: the tasks of a
-- job, and what is known of them and of their workers while they run.
use microcosm.Base.{
  ℕ, ◌+◌, ◌*◌, String, Bool, true, false, ◌&&◌, ◌||◌, Option, none, some, List, [], ◌∷◌, Map,
  insert, String_eq, ltb, eqb, if◌then◌else◌,
}
use microcosm.Worker.Timeouts.{second}

-- The modes of dmconfig that the source names, and any other text.
pub data TaskMode : Type 0 where
  mode_all mode_full mode_increment : TaskMode
  other_mode : String → TaskMode

-- JobCfg, with the fields that the managers read. An upstream is its source id.
pub record JobCfg : Type 0 where
  pub name : String
  pub task_mode : TaskMode
  pub upstreams : List String

-- A task's configuration has one upstream.
pub record TaskCfg : Type 0 where
  pub name : String
  pub task_mode : TaskMode
  pub source_id : String

unfoldable pub to_task_configs_from : JobCfg → List String → Map String TaskCfg → Map String TaskCfg
to_task_configs_from c [] task_cfgs = task_cfgs
to_task_configs_from c (source_id ∷ rest) task_cfgs = to_task_configs_from c rest (
    insert source_id (record { name = c.name; task_mode = c.task_mode; source_id = source_id })
      task_cfgs)

unfoldable pub to_task_configs : JobCfg → Map String TaskCfg
to_task_configs c = to_task_configs_from c c.upstreams []

pub data TaskStage : Type 0 where
  stage_init stage_running stage_paused stage_finished stage_unscheduled : TaskStage

abbrev pub stage_number : TaskStage → ℕ
stage_number stage_init = 0
stage_number stage_running = 1
stage_number stage_paused = 2
stage_number stage_finished = 3
stage_number stage_unscheduled = 4

abbrev pub same_stage : TaskStage → TaskStage → Bool
same_stage a b = eqb (stage_number a) (stage_number b)

pub record Task : Type 0 where
  pub cfg : TaskCfg
  pub stage : TaskStage

abbrev pub new_task : TaskCfg → Task
new_task cfg = record { cfg = cfg; stage = stage_running }

-- metadata.Job: its tasks by id.
abbrev pub Job : Type 0
Job = Map String Task

unfoldable pub new_tasks : Map String TaskCfg → Job
new_tasks [] = []
new_tasks ((task_id, cfg) ∷ rest) = (task_id, new_task cfg) ∷ new_tasks rest

unfoldable pub new_job : JobCfg → Job
new_job c = new_tasks (to_task_configs c)

-- WorkerDMDump, WorkerDMLoad and WorkerDMSync of lib/common.go.
abbrev pub worker_dm_dump : ℕ
worker_dm_dump = 10

abbrev pub worker_dm_load : ℕ
worker_dm_load = 11

abbrev pub worker_dm_sync : ℕ
worker_dm_sync = 12

-- DefaultTaskStatus, the common part of what the units report.
pub record TaskStatus : Type 0 where
  pub unit : ℕ
  pub task : String
  pub stage : TaskStage

abbrev pub new_offline_status : String → TaskStatus
new_offline_status task_id = record { unit = 0; task = task_id; stage = stage_unscheduled }

-- UnmarshalTaskStatus, of what decoding the text gives: nothing if it is no status at all.
unfoldable pub unmarshal_task_status : Option TaskStatus → Option TaskStatus
unmarshal_task_status none = none
unmarshal_task_status (some s) =
    if eqb s.unit worker_dm_dump || eqb s.unit worker_dm_load || eqb s.unit worker_dm_sync
    then some s
    else none

pub data WorkerStage : Type 0 where
  worker_creating worker_online worker_finished worker_offline : WorkerStage

abbrev pub is_creating : WorkerStage → Bool
is_creating worker_creating = true
is_creating _ = false

abbrev pub is_finished : WorkerStage → Bool
is_finished worker_finished = true
is_finished _ = false

abbrev pub is_offline_stage : WorkerStage → Bool
is_offline_stage worker_offline = true
is_offline_stage _ = false

pub record WorkerStatus : Type 0 where
  pub task_id : String
  pub id : String
  pub unit : ℕ
  pub stage : WorkerStage
  pub created_time : ℕ

abbrev pub heartbeat_interval : ℕ
heartbeat_interval = 3 * second

unfoldable pub is_offline : WorkerStatus → Bool
is_offline w = is_offline_stage w.stage

unfoldable pub create_failed : ℕ → WorkerStatus → Bool
create_failed now w = is_creating w.stage && ltb (w.created_time + 2 * heartbeat_interval) now

unfoldable pub run_as_expected : WorkerStatus → Bool
run_as_expected w = elim w.stage [ worker_offline ↦ false | _ ↦ true ]

abbrev pub new_worker_status : String → ℕ → String → WorkerStage → WorkerStatus
new_worker_status task_id unit id stage = record {
  task_id = task_id;
  id = id;
  unit = unit;
  stage = stage;
  created_time = 0;
}

abbrev pub init_worker_status : ℕ → String → ℕ → String → WorkerStatus
init_worker_status now task_id unit id =
    record (new_worker_status task_id unit id worker_creating) { created_time = now }

pub data DmError : Type 0 where
  state_not_found unknown_operate_type unexpected_message : DmError
  task_not_found status_missing worker_exists worker_missing invalid_stage : String → DmError
  worker_mismatch : String → String → DmError
  from_outside : String → DmError

-- The error that is recorded last.
abbrev pub last_error : Option DmError → Option DmError → Option DmError
last_error before none = before
last_error before (some e) = some e
