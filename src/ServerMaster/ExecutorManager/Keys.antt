-- ===== src/ServerMaster/ExecutorManager/Keys.antt =====
-- The executor manager and its resource manager know the same executors.
use microcosm.Base.{
  ℕ, String, none, some, Option, ◌≡◌, ◌≢◌, refl, inl, inr, arith, lookup, has, lookup-insert,
  lookup-delete, String_eq, eq_iff, Bool-cases,
}
use microcosm.ServerMaster.Resource.{register, unregister, update}
use microcosm.ServerMaster.ExecutorManager.{
  ExecutorManager, Executor, NodeInfo, fails, ManagerError, HeartbeatRequest, new_executor_manager,
  remove_executor_impl, handle_heartbeat, register_exec, allocate_new_exec, RegisterExecutorRequest,
}

-- An executor is under its own id.
abbrev pub IsOwn : String → Option Executor → Type 0
IsOwn id none = Unit
IsOwn id (some exec) = exec.info.id ≡ id

-- What holds of an id in both managers.
abbrev pub SoundAt : String → ExecutorManager → Type 0
SoundAt id e = (has id e.executors ≡ has id e.resc_mgr) × IsOwn id (lookup id e.executors)

abbrev pub IsSound : ExecutorManager → Type 0
IsSound e = (id : String) → SoundAt id e

ruleset maps = (arith, lookup-insert, lookup-delete)

pub new_executor_manager-IsSound : (ttl : ℕ) → IsSound (new_executor_manager ttl)
unfolding new_executor_manager lookup
new_executor_manager-IsSound ttl id = (refl, tt)

pub remove_executor_impl-IsSound :
    (k : String) (e : ExecutorManager) → IsSound e → IsSound (remove_executor_impl k e).0
unfolding remove_executor_impl unregister
remove_executor_impl-IsSound k e s id = grind (maps, eq_iff k id, s id, s k)

register_exec-IsSound :
    (now : ℕ) (info : NodeInfo) (e : ExecutorManager)
    → IsSound e
    → IsSound (register_exec now info e)
unfolding register_exec register
register_exec-IsSound now info e s id = grind (maps, eq_iff info.id id, s id)

-- A heartbeat keeps the executor manager and its resource manager in step, and HandleHeartbeat then
-- never answers an error in place of a response.
pub handle_heartbeat-IsSound :
    (now : ℕ) (req : HeartbeatRequest) (e : ExecutorManager)
    → IsSound e
    → IsSound (handle_heartbeat now req e).0
      × ((x : ManagerError) → (handle_heartbeat now req e).1 ≢ fails x)
unfolding handle_heartbeat update
handle_heartbeat-IsSound now req e s = (
  λ id. grind (maps, eq_iff req.executor_id id, s id, s req.executor_id),
  λ x. ground (arith, s req.executor_id),
)

pub allocate_new_exec-IsSound :
    (now : ℕ) (new_id : String) (req : RegisterExecutorRequest) (e : ExecutorManager)
    → IsSound e
    → IsSound (allocate_new_exec now new_id req e).0
unfolding allocate_new_exec
allocate_new_exec-IsSound now new_id req e s = elim (Bool-cases (has new_id e.executors)) [
  | inl dup ↦ rw dup s
  | inr new ↦ rw new (register_exec-IsSound now _ e s)
]
