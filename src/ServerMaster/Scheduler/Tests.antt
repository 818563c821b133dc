-- ===== src/ServerMaster/Scheduler/Tests.antt =====
-- Runs of the scheduler.
use microcosm.Base.{
  String, true, false, none, some, List, [], ◌∷◌, ◌≡◌, refl, String_eq, ◌==◌, if◌then◌else◌, pos,
  Returns,
}
use microcosm.ServerMaster.Resource.{CapRescMgr, register}
use microcosm.ServerMaster.Scheduler.{
  constrained, unconstrained, PlacementConstrainer, SchedulerRequest, schedule_by_cost,
  schedule_task,
}
use microcosm.ServerMaster.Scheduler.Capacity.{provider, provider-IsCoherent}
use microcosm.ServerMaster.Scheduler.Cost.{Shuffles, fits, schedule_by_cost_finds}
use microcosm.ServerMaster.Scheduler.Task.{Placed, schedule_task-Placed}

abbrev two_executors : CapRescMgr
two_executors = register "x" "x:1" (pos 10) (register "y" "y:1" (pos 90) [])

-- Of the two resources one is at each executor.
abbrev by_name : PlacementConstrainer
by_name r =
    if r == "rx" then constrained "x" else if r == "ry" then constrained "y" else unconstrained

abbrev unshuffled : List String → List String
unshuffled ids = ids

unshuffled-Shuffles : Shuffles unshuffled
unshuffled-Shuffles ids x = refl

abbrev request : SchedulerRequest
request = record { tenant_id = "t"; cost = pos 50; external_resources = "ry" ∷ "free" ∷ [] }

schedule_by_cost_finds_example :
    Returns (schedule_by_cost unshuffled (provider two_executors) (pos 50)) (λ r.
      ((id : String)
        → r ≡ some id
        → fits (pos 50) (provider two_executors).capacities_for_all_executors id ≡ true)
      × (r ≡ none
          → (id : String)
          → fits (pos 50) (provider two_executors).capacities_for_all_executors id ≡ false))
schedule_by_cost_finds_example =
    schedule_by_cost_finds unshuffled (provider two_executors) (pos 50) unshuffled-Shuffles

schedule_task-Placed_example :
    Returns
      (schedule_task unshuffled (provider two_executors) by_name request)
      (Placed (provider two_executors) by_name request)
schedule_task-Placed_example =
    schedule_task-Placed unshuffled (provider two_executors) by_name request unshuffled-Shuffles
      (provider-IsCoherent two_executors)

abbrev too_large : SchedulerRequest
too_large = record { tenant_id = "t"; cost = pos 90; external_resources = [] }
