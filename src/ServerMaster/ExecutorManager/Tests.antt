-- ===== src/ServerMaster/ExecutorManager/Tests.antt =====
-- Runs of the executor manager.
use microcosm.Base.{
  not, ◌||◌, List, true, [], ◌∷◌, ◌≡◌, refl, lookup, insert, is_some, String_eq, pos,
}
use microcosm.ServerMaster.Resource.{initing, running, capacity_for_executor}
use microcosm.ServerMaster.ExecutorManager.{
  ExecutorManager, Executor, HeartbeatRequest, RegisterExecutorRequest, new_executor_manager,
  register_exec, allocate_new_exec, has_executor, mark_dead, remove_marked, NodeInfo,
}
use microcosm.ServerMaster.ExecutorManager.Keys.{
  IsSound, new_executor_manager-IsSound, allocate_new_exec-IsSound,
}
use microcosm.ServerMaster.ExecutorManager.Leases.{Marks, Removes, check_alive_impl-Removes}
use microcosm.ServerMaster.ExecutorManager.Run.{
  Event, inserts, registers, beats, marks, removes, start, run, is_registering, is_overtaken,
  run_capacities,
}

abbrev node : RegisterExecutorRequest
node = record { address = "x:1"; capability = pos 100 }

abbrev beat : HeartbeatRequest
beat = record { executor_id = "x"; resource_usage = pos 30; status = running; ttl = 5 }

abbrev registered : ExecutorManager
registered = (allocate_new_exec 0 "x" node (new_executor_manager 10)).0

registered-IsSound : IsSound registered
registered-IsSound =
    allocate_new_exec-IsSound 0 "x" node (new_executor_manager 10) (new_executor_manager-IsSound 10)

abbrev info_x : NodeInfo
info_x = record { id = "x"; addr = "x:1"; capability = pos 100 }

-- The lease of an executor ends between the halves of its registration.
abbrev slow : List Event
slow = inserts 0 info_x ∷ beats 1 beat ∷ marks 9_000_000 ∷ removes "x" ∷ registers 0 ∷ []

run_capacities_example :
    let w = run slow (start 10) in
    let known = has_executor "x" w.manager in
    let capacity = is_some (capacity_for_executor "x" w.manager.resc_mgr) in
    ((not known || capacity || is_registering "x" w.registering) ≡ true)
    × ((not capacity || known || is_overtaken "x" w.overtaken) ≡ true)
run_capacities_example = run_capacities 10 slow "x"

check_alive_impl-Removes_example :
    Marks 11 registered (mark_dead 11 registered)
    × Removes
        (mark_dead 11 registered).1
        registered
        (remove_marked (registered, (mark_dead 11 registered).1))
unfolding allocate_new_exec register_exec new_executor_manager lookup insert
check_alive_impl-Removes_example = check_alive_impl-Removes 11 registered registered (refl, tt)

abbrev exec_x : Executor
exec_x = record {
  info = record { id = "x"; addr = "x:1"; capability = pos 100 };
  status = initing;
  last_update_time = 0;
  heartbeat_ttl = 10;
}
