-- ===== src/ServerMaster/ExecutorManager.antt =====
-- servermaster/executor_manager.go: the executors that have registered, with their leases. Times are
-- numbers on the clock's scale; what reads the clock takes the time. HandleHeartbeat, RegisterExec and
-- checkAliveImpl give the manager's lock up on the way: what they do between is a function each
-- (apply_heartbeat, insert_executor, register_resource, mark_dead, remove_executor_impl), and Run has
-- these in any order. The whole methods are the functions one after the other. An executor is only removed
-- after checkAlive has made it a tombstone, which it stays, and ids are not given twice.
pub mod Keys
pub mod Leases
pub mod Run
mod Tests
use microcosm.Base.{
  ℕ, suc, ◌+◌, ◌*◌, String, Bool, true, false, Option, none, some, List, [], ◌∷◌, Map, lookup,
  insert, delete, has, String_eq, ℕ_eq, ltb, if◌then◌else◌, ◌==◌, ℤ,
}
use microcosm.ServerMaster.Resource.{
  CapRescMgr, ExecutorStatus, initing, running, disconnected, tombstone, register, unregister,
  update, RescError,
}

-- model.NodeInfo, with the fields that the manager reads.
pub record NodeInfo : Type 0 where
  pub id : String
  pub addr : String
  pub capability : ℤ

pub record Executor : Type 0 where
  pub info : NodeInfo
  pub status : ExecutorStatus
  pub last_update_time : ℕ
  pub heartbeat_ttl : ℕ

pub record ExecutorManager : Type 0 where
  pub executors : Map String Executor
  pub init_heartbeat_ttl : ℕ
  pub resc_mgr : CapRescMgr

pub data ManagerError : Type 0 where
  unknown_executor_id tombstone_executor : String → ManagerError
  executor_dup_register : ManagerError
  resc_error : RescError → ManagerError

-- A response with its Err field, or an error in place of a response.
pub data Answer : Type 0 where
  responds : Option ManagerError → Answer
  fails : ManagerError → Answer

unfoldable pub new_executor_manager : ℕ → ExecutorManager
new_executor_manager init_heartbeat_ttl = record {
  executors = [];
  init_heartbeat_ttl = init_heartbeat_ttl;
  resc_mgr = [];
}

unfoldable pub remove_executor_impl :
    String → ExecutorManager → ExecutorManager × Option ManagerError
remove_executor_impl id e = elim (lookup id e.executors) [
  | none ↦ (e, some (unknown_executor_id id))
  | some _ ↦
      (record e { executors = delete id e.executors; resc_mgr = unregister id e.resc_mgr }, none)
]

abbrev pub status_number : ExecutorStatus → ℕ
status_number initing = 0
status_number running = 1
status_number disconnected = 2
status_number tombstone = 3

abbrev pub is_tombstone : ExecutorStatus → Bool
is_tombstone tombstone = true
is_tombstone _ = false

pub record HeartbeatRequest : Type 0 where
  pub executor_id : String
  pub resource_usage : ℤ
  pub status : ExecutorStatus
  pub ttl : ℕ  -- milliseconds

-- The clock counts nanoseconds.
abbrev pub millisecond : ℕ
millisecond = 1_000_000

abbrev pub heard : ℕ → HeartbeatRequest → Executor → Executor
heard now req exec = record exec {
  last_update_time = now;
  heartbeat_ttl = req.ttl * millisecond;
  status = req.status;
}

abbrev pub answer_update :
    CapRescMgr × Option RescError → ExecutorManager → ExecutorManager × Answer
answer_update (resc, none) e = (record e { resc_mgr = resc }, responds none)
answer_update (resc, some x) e = (record e { resc_mgr = resc }, fails (resc_error x))

-- HandleHeartbeat under the lock of the executor that it has found.
abbrev pub heartbeat_of :
    ℕ → HeartbeatRequest → Executor → ExecutorManager → ExecutorManager × Answer
heartbeat_of now req exec e =
    if is_tombstone exec.status
    then (e, responds (some (tombstone_executor req.executor_id)))
    else answer_update
        (update exec.info.id req.resource_usage req.resource_usage req.status e.resc_mgr)
        (record e { executors = insert req.executor_id (heard now req exec) e.executors })

-- The same, where the executor may have been removed since: then it is a tombstone.
unfoldable pub apply_heartbeat : ℕ → HeartbeatRequest → ExecutorManager → ExecutorManager × Answer
apply_heartbeat now req e = elim (lookup req.executor_id e.executors) [
  | none ↦ (e, responds (some (tombstone_executor req.executor_id)))
  | some exec ↦ heartbeat_of now req exec e
]

unfoldable pub handle_heartbeat : ℕ → HeartbeatRequest → ExecutorManager → ExecutorManager × Answer
handle_heartbeat now req e = elim (lookup req.executor_id e.executors) [
  | none ↦ (e, responds (some (unknown_executor_id req.executor_id)))
  | some exec ↦ heartbeat_of now req exec e
]

-- The first half of RegisterExec, under the manager's lock, and the second, without it.
abbrev pub insert_executor : ℕ → NodeInfo → ExecutorManager → ExecutorManager
insert_executor now info e = record e {
  executors =
      insert info.id
        (record {
          info = info;
          status = initing;
          last_update_time = now;
          heartbeat_ttl = e.init_heartbeat_ttl;
        })
        e.executors;
}

abbrev pub register_resource : NodeInfo → ExecutorManager → ExecutorManager
register_resource info e = record e {
  resc_mgr = register info.id info.addr info.capability e.resc_mgr;
}

unfoldable pub register_exec : ℕ → NodeInfo → ExecutorManager → ExecutorManager
register_exec now info e = register_resource info (insert_executor now info e)

pub record RegisterExecutorRequest : Type 0 where
  pub address : String
  pub capability : ℤ

pub data Allocated : Type 0 where
  allocated : NodeInfo → Allocated
  refused : ManagerError → Allocated

-- The id comes from the generator of UUIDs.
unfoldable pub allocate_new_exec :
    ℕ → String → RegisterExecutorRequest → ExecutorManager → ExecutorManager × Allocated
allocate_new_exec now new_id req e =
    let info : NodeInfo = record { id = new_id; addr = req.address; capability = req.capability } in
    if has new_id e.executors
    then (e, refused executor_dup_register)
    else (register_exec now info e, allocated info)

unfoldable pub has_executor : String → ExecutorManager → Bool
has_executor id e = has id e.executors

abbrev ids : Map String Executor → List String
ids [] = []
ids ((id, _) ∷ m) = id ∷ ids m

unfoldable pub list_executors : ExecutorManager → List String
list_executors e = ids e.executors

-- Executor.checkAlive, with the executor that it leaves.
unfoldable pub check_alive : ℕ → Executor → Executor × Bool
check_alive now exec =
    if is_tombstone exec.status
    then (exec, false)
    else if ltb (exec.last_update_time + exec.heartbeat_ttl) now
    then (record exec { status = tombstone }, false)
    else (exec, true)

-- The loop of checkAliveImpl: it stops at the first executor that is not alive.
unfoldable pub first_dead : ℕ → Map String Executor → Option (String × Executor)
first_dead now [] = none
first_dead now ((id, exec) ∷ rest) =
    let (exec', alive) = check_alive now exec in
    let later = first_dead now rest in if alive then later else some (id, exec')

-- The loop, under the manager's lock: it has made the executor that it stops at a tombstone.
unfoldable pub mark_dead : ℕ → ExecutorManager → ExecutorManager × Option String
mark_dead now e = elim (first_dead now e.executors) [
  | none ↦ (e, none)
  | some (id, exec) ↦ (record e { executors = insert id exec e.executors }, some id)
]

abbrev pub remove_marked : ExecutorManager × Option String → ExecutorManager × Option ManagerError
remove_marked (e, none) = (e, none)
remove_marked (e, some id) = remove_executor_impl id e

unfoldable pub check_alive_impl : ℕ → ExecutorManager → ExecutorManager × Option ManagerError
check_alive_impl now e = remove_marked (mark_dead now e)

-- What the goroutine of Start wakes up for. It has no return: an ended context is one more round.
pub data Wake : Type 0 where
  timer : ℕ → Wake
  context_done : Wake

unfoldable pub check_alive_loop : List Wake → ExecutorManager → ExecutorManager
check_alive_loop [] e = e
check_alive_loop (timer now ∷ wakes) e = check_alive_loop wakes (check_alive_impl now e).0
check_alive_loop (context_done ∷ wakes) e = check_alive_loop wakes e

abbrev count : ExecutorStatus → Map String Executor → ℕ
count status [] = 0
count status ((id, exec) ∷ rest) =
    let others = count status rest in
    if status_number exec.status == status_number status then suc others else others

unfoldable pub executor_count : ExecutorStatus → ExecutorManager → ℕ
executor_count status e = count status e.executors

unfoldable pub get_addr : String → ExecutorManager → Option String
get_addr id e = elim (lookup id e.executors) [ none ↦ none | some exec ↦ some exec.info.addr ]
