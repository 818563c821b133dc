-- ===== src/ServerMaster/Scheduler.antt =====
-- servermaster/scheduler/: where a task runs. The capacity provider and the placement constrainer are
-- the two interfaces of the source; rand.Shuffle, of Go's library, is a parameter.
pub mod Capacity
pub mod Cost
pub mod Constraint
pub mod Task
mod Tests
use microcosm.Base.{
  String, Bool, true, false, Option, none, some, List, [], ◌∷◌, Map, lookup, not, ◌&&◌, String_eq,
  ◌==◌, if◌then◌else◌, ℤ, ltℤ, leℤ, Outcome, returns, panics, ◌>>=◌,
}
use microcosm.ServerMaster.Resource.{ExecutorResourceStatus, remaining}

pub record CapacityProvider : Type 0 where
  pub capacities_for_all_executors : Map String ExecutorResourceStatus
  pub capacity_for_executor : String → Option ExecutorResourceStatus

pub data PlacementError : Type 0 where
  resource_does_not_exist : String → PlacementError
  other_error : String → PlacementError

-- (executorID, true, nil), ("", false, nil) and ("", false, err).
pub data Placement : Type 0 where
  constrained : String → Placement
  unconstrained : Placement
  placement_error : PlacementError → Placement

abbrev pub PlacementConstrainer : Type 0
PlacementConstrainer = String → Placement

pub data SchedulerError : Type 0 where
  resource_not_found : String → PlacementError → SchedulerError
  resource_conflict : String → String → String → String → SchedulerError
  cluster_resource_not_enough : SchedulerError
  from_placement : PlacementError → SchedulerError

pub data Result (A : Type 0) : Type 0 where
  ok : A → Result A
  err : SchedulerError → Result A

pub record SchedulerRequest : Type 0 where
  pub tenant_id : String
  pub cost : ℤ
  pub external_resources : List String

pub record SchedulerResponse : Type 0 where
  pub executor_id : String

abbrev pub keys : {V : Type 0} → Map String V → List String
keys [] = []
keys ((k, v) ∷ m) = k ∷ keys m

-- The loop of ScheduleByCost. A shuffled id that is no key would be a nil dereference.
unfoldable pub first_fit :
    ℤ → Map String ExecutorResourceStatus → List String → Outcome (Option String)
first_fit cost caps [] = returns none
first_fit cost caps (id ∷ rest) =
    let later = first_fit cost caps rest in
    elim (lookup id caps) [
      | none ↦ panics
      | some status ↦ if ltℤ cost (remaining status) then returns (some id) else later
    ]

unfoldable pub schedule_by_cost :
    (List String → List String) → CapacityProvider → ℤ → Outcome (Option String)
schedule_by_cost shuffle provider cost =
    let caps = provider.capacities_for_all_executors in first_fit cost caps (shuffle (keys caps))

unfoldable pub check_cost_allows : CapacityProvider → SchedulerRequest → String → Bool
check_cost_allows provider request target = elim (provider.capacity_for_executor target) [
  | none ↦ false
  | some status ↦ leℤ request.cost (remaining status)
]

abbrev pub placement_failure : String → PlacementError → SchedulerError
placement_failure resource_id (resource_does_not_exist id) =
    resource_not_found resource_id (resource_does_not_exist id)
placement_failure resource_id (other_error message) = from_placement (other_error message)

-- The loop of getConstraint, over `ret` and `lastResourceID`.
unfoldable pub constraint_from :
    PlacementConstrainer → List String → String → String → Result String
constraint_from place [] ret last = ok ret
constraint_from place (resource_id ∷ rest) ret last = elim (place resource_id) [
  | placement_error e ↦ err (placement_failure resource_id e)
  | unconstrained ↦ constraint_from place rest ret last
  | constrained executor_id ↦
      let onward = constraint_from place rest executor_id resource_id in
      if not (ret == "") && not (ret == executor_id)
      then err (resource_conflict resource_id executor_id last ret)
      else onward
]

unfoldable pub get_constraint : PlacementConstrainer → List String → Result String
get_constraint place resources = constraint_from place resources "" ""

abbrev pub respond : Option String → Result SchedulerResponse
respond (some target) = ok (record { executor_id = target })
respond none = err cluster_resource_not_enough

unfoldable pub schedule_by_cost_only :
    (List String → List String)
    → CapacityProvider
    → SchedulerRequest
    → Outcome (Result SchedulerResponse)
schedule_by_cost_only shuffle provider request =
    schedule_by_cost shuffle provider request.cost >>= λ target. returns (respond target)

abbrev pub is_empty : List String → Bool
is_empty [] = true
is_empty (_ ∷ _) = false

abbrev pub constrained_task :
    (List String → List String)
    → CapacityProvider
    → SchedulerRequest
    → Result String
    → Outcome (Result SchedulerResponse)
constrained_task shuffle provider request (err e) = returns (err e)
constrained_task shuffle provider request (ok constraint) =
    if constraint == ""
    then schedule_by_cost_only shuffle provider request
    else if not (check_cost_allows provider request constraint)
    then returns (err cluster_resource_not_enough)
    else returns (ok (record { executor_id = constraint }))

unfoldable pub schedule_task :
    (List String → List String)
    → CapacityProvider
    → PlacementConstrainer
    → SchedulerRequest
    → Outcome (Result SchedulerResponse)
schedule_task shuffle provider place request =
    if is_empty request.external_resources
    then schedule_by_cost_only shuffle provider request
    else constrained_task shuffle provider request (get_constraint place request.external_resources)
