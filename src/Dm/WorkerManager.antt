-- ===== src/Dm/WorkerManager.antt =====
-- jobmaster/dm/worker_manager.go. The worker agent and the checkpoint agent are the source's interfaces;
-- the worker agent threads a state of its own. A loop over workerStatusMap goes through the entries that
-- it has at the start, as sync.Map's Range does when nothing else writes.
pub mod Units
pub mod Turns
pub mod Keeps
pub mod Loops
pub mod Settles
use microcosm.Base.{
  ℕ, zero, suc, ◌+◌, String, Bool, true, false, not, ◌&&◌, ◌||◌, Option, none, some, List, [], ◌∷◌,
  ◌++◌, Map, lookup, insert, delete, has, String_eq, ◌==◌, eqb, if◌then◌else◌, Outcome, returns,
  panics, ◌>>=◌,
}
use microcosm.Dm.Runtime.{
  Job, Task, TaskCfg, TaskMode, mode_all, mode_full, mode_increment, other_mode, worker_dm_dump,
  worker_dm_load, worker_dm_sync, WorkerStatus, WorkerStage, is_finished, is_offline, create_failed,
  run_as_expected, init_worker_status, DmError, last_error,
}
use microcosm.Dm.Store.{Got, got, get_failed}

-- NewDMResourceID of utils.go, whose text is put together from the two names.
pub record ResourceId : Type 0 where
  pub task_name : String
  pub source_name : String

pub record WorkerAgent (S : Type 0) : Type 0 where
  pub create : String → ℕ → TaskCfg → List ResourceId → S → S × String × Option DmError
  pub stop : String → String → S → S × Option DmError

-- IsFresh, with its error.
pub data Freshness : Type 0 where
  fresh : Bool → Freshness
  unknown_freshness : DmError → Freshness

abbrev pub CheckpointAgent : Type 0
CheckpointAgent = ℕ → Task → Freshness

unfoldable pub update_worker_status :
    WorkerStatus → Map String WorkerStatus → Map String WorkerStatus
update_worker_status w m = insert w.task_id w m

unfoldable pub new_statuses : List WorkerStatus → Map String WorkerStatus → Map String WorkerStatus
new_statuses [] m = m
new_statuses (w ∷ rest) m = new_statuses rest (update_worker_status w m)

unfoldable pub remove_offline_workers : ℕ → Map String WorkerStatus → Map String WorkerStatus
remove_offline_workers now [] = []
remove_offline_workers now ((id, w) ∷ rest) =
    let kept = remove_offline_workers now rest in
    if is_offline w || create_failed now w then kept else (id, w) ∷ kept

-- The first entry with the worker's id.
unfoldable pub remove_worker_status_by_worker_id :
    String → Map String WorkerStatus → Map String WorkerStatus
remove_worker_status_by_worker_id worker_id [] = []
remove_worker_status_by_worker_id worker_id ((id, w) ∷ rest) =
    let later = remove_worker_status_by_worker_id worker_id rest in
    if w.id == worker_id then rest else (id, w) ∷ later

-- workerSeqMap.
unfoldable pub worker_seq : TaskMode → Option (List ℕ)
worker_seq mode_all = some (worker_dm_dump ∷ worker_dm_load ∷ worker_dm_sync ∷ [])
worker_seq mode_full = some (worker_dm_dump ∷ worker_dm_load ∷ [])
worker_seq mode_increment = some (worker_dm_sync ∷ [])
worker_seq (other_mode _) = none

abbrev pub seq_of : TaskMode → Outcome (List ℕ)
seq_of mode = elim (worker_seq mode) [ none ↦ panics | some seq ↦ returns seq ]

-- The loop of getCurrentUnit, from the last unit to the first, over the reversed sequence.
pub data Current : Type 0 where
  current : ℕ → Current
  current_failed : DmError → Current

-- A turn of it, over what the turns before it give.
abbrev pub at_freshness : ℕ → Current → Freshness → Current
at_freshness unit earlier (unknown_freshness e) = current_failed e
at_freshness unit earlier (fresh true) = earlier
at_freshness unit earlier (fresh false) = current unit

unfoldable pub last_stale : CheckpointAgent → Task → List ℕ → Current → Current
last_stale checkpoint task [] first = first
last_stale checkpoint task (unit ∷ rest) first =
    at_freshness unit (last_stale checkpoint task rest first) (checkpoint unit task)

unfoldable pub reverse_onto : List ℕ → List ℕ → List ℕ
reverse_onto [] acc = acc
reverse_onto (x ∷ xs) acc = reverse_onto xs (x ∷ acc)

abbrev pub first_of : List ℕ → Outcome ℕ
first_of [] = panics
first_of (x ∷ xs) = returns x

unfoldable pub get_current_unit : CheckpointAgent → Task → Outcome Current
get_current_unit checkpoint task = do
  seq ← seq_of task.cfg.task_mode
  first ← first_of seq
  returns (last_stale checkpoint task (reverse_onto seq []) (current first))

unfoldable pub idx_from : ℕ → ℕ → List ℕ → Outcome ℕ
idx_from i worker [] = panics
idx_from i worker (w ∷ rest) =
    let later = idx_from (suc i) worker rest in if eqb w worker then returns i else later

unfoldable pub worker_idx_in_seq : TaskMode → ℕ → Outcome ℕ
worker_idx_in_seq mode worker = seq_of mode >>= idx_from 0 worker

-- The unit after the one at the index, or that one at the end.
unfoldable pub unit_after : ℕ → List ℕ → Outcome ℕ
unit_after i [] = panics
unit_after zero (x ∷ []) = returns x
unit_after zero (x ∷ y ∷ rest) = returns y
unit_after (suc i) (x ∷ rest) = unit_after i rest

unfoldable pub next_worker_type : TaskMode → ℕ → Outcome ℕ
next_worker_type mode worker = do
  seq ← seq_of mode
  idx ← worker_idx_in_seq mode worker
  unit_after idx seq

unfoldable pub get_next_unit : Task → WorkerStatus → Outcome ℕ
get_next_unit task w =
    let next = next_worker_type task.cfg.task_mode w.unit in
    if is_finished w.stage then next else returns w.unit

-- The resources of the unit that is to come: the first one needs none.
abbrev pub resources_at : TaskCfg → ℕ → List ResourceId
resources_at cfg idx =
    if eqb idx 0 then [] else record { task_name = cfg.name; source_name = cfg.source_id } ∷ []

-- Over the agent's state, the statuses and the recorded error.
pub record Loop (S : Type 0) : Type 0 where
  pub agent_state : S
  pub statuses : Map String WorkerStatus
  pub record_error : Option DmError

abbrev pub begin_loop : {S : Type 0} → S → Map String WorkerStatus → Loop S
begin_loop s m = record { agent_state = s; statuses = m; record_error = none }

-- The error of onJobNotExist comes first, then the one of the store.
abbrev pub or_error : {S : Type 0} → DmError → Loop S → Loop S
or_error e l = elim l.record_error [ none ↦ record l { record_error = some e } | some _ ↦ l ]

-- With an error the status stays.
abbrev pub when_stopped : {S : Type 0} → String → Loop S → S × Option DmError → Loop S
when_stopped task_id l (s, some x) = record l { agent_state = s; record_error = some x }
when_stopped task_id l (s, none) = record l {
  agent_state = s;
  statuses = delete task_id l.statuses;
}

module _ {S : Type 0} (agent : WorkerAgent S) where
  unfoldable pub stop_worker : String → String → Loop S → Loop S
  stop_worker task_id worker_id l =
      when_stopped task_id l (agent.stop task_id worker_id l.agent_state)

  unfoldable pub stop_all : Map String WorkerStatus → Loop S → Loop S
  stop_all [] l = l
  stop_all ((id, w) ∷ rest) l = stop_all rest (stop_worker id w.id l)

  unfoldable pub stop_unneeded_workers : Job → Map String WorkerStatus → Loop S → Loop S
  stop_unneeded_workers job [] l = l
  stop_unneeded_workers job ((id, w) ∷ rest) l =
      stop_unneeded_workers job rest (if has id job then l else stop_worker id w.id l)

  unfoldable pub create_worker : ℕ → String → ℕ → TaskCfg → List ResourceId → Loop S → Loop S
  create_worker now task_id unit cfg resources l =
      let (s, worker_id, e) = agent.create task_id unit cfg resources l.agent_state in
      record {
        agent_state = s;
        statuses =
            if worker_id == ""
            then l.statuses
            else update_worker_status (init_worker_status now task_id unit worker_id) l.statuses;
        record_error = last_error l.record_error e;
      }

  unfoldable pub launch : ℕ → String → Task → ℕ → Loop S → Outcome (Loop S)
  launch now task_id task unit l = worker_idx_in_seq task.cfg.task_mode unit >>= λ idx.
      returns (create_worker now task_id unit task.cfg (resources_at task.cfg idx) l)

  -- A turn of the loop, of the task's status.
  abbrev pub with_worker : ℕ → String → Task → WorkerStatus → Loop S → Outcome (Loop S)
  with_worker now task_id task w l = get_next_unit task w >>= λ unit.
      if run_as_expected w && eqb unit w.unit then returns l else launch now task_id task unit l

  abbrev pub at_current : ℕ → String → Task → Loop S → Current → Outcome (Loop S)
  at_current now task_id task l (current_failed e) = returns (record l { record_error = some e })
  at_current now task_id task l (current unit) = launch now task_id task unit l

  abbrev pub schedule_task :
      CheckpointAgent → ℕ → String → Task → Option WorkerStatus → Loop S → Outcome (Loop S)
  schedule_task checkpoint now task_id task (some w) l = with_worker now task_id task w l
  schedule_task checkpoint now task_id task none l =
      get_current_unit checkpoint task >>= at_current now task_id task l

  unfoldable pub check_and_schedule_workers : CheckpointAgent → ℕ → Job → Loop S → Outcome (Loop S)
  check_and_schedule_workers checkpoint now [] l = returns l
  check_and_schedule_workers checkpoint now ((task_id, task) ∷ rest) l =
      schedule_task checkpoint now task_id task (lookup task_id l.statuses) l
      >>= check_and_schedule_workers checkpoint now rest

  -- TickImpl, of what the job store answers.
  unfoldable pub tick_impl :
      CheckpointAgent → ℕ → Got → Map String WorkerStatus → S → Outcome (Loop S)
  tick_impl checkpoint now answer m s =
      let left = remove_offline_workers now m in
      elim answer [
        | get_failed e ↦ returns (or_error e (stop_all left (begin_loop s left)))
        | got job ↦
            check_and_schedule_workers checkpoint now job
              (stop_unneeded_workers job left (begin_loop s left))
      ]
