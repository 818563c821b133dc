-- ===== src/ServerMaster/Scheduler/Capacity.antt =====
-- The resource manager as the scheduler's capacity provider.
use microcosm.Base.{String, [], ◌∷◌, ◌≡◌, refl, arith, lookup, String_eq}
use microcosm.ServerMaster.Resource.{
  CapRescMgr, capacities_for_all_executors, capacity_for_executor,
}
use microcosm.ServerMaster.Scheduler.{CapacityProvider}

-- The two methods of a provider tell the same.
abbrev pub IsCoherent : CapacityProvider → Type 0
IsCoherent p = (id : String) → p.capacity_for_executor id ≡ lookup id p.capacities_for_all_executors

unfoldable pub provider : CapRescMgr → CapacityProvider
provider m = record {
  capacities_for_all_executors = capacities_for_all_executors m;
  capacity_for_executor = λ id. capacity_for_executor id m;
}

-- The resource manager's two methods tell the same of every executor.
pub provider-IsCoherent : (m : CapRescMgr) → IsCoherent (provider m)
unfolding provider capacities_for_all_executors capacity_for_executor lookup
provider-IsCoherent [] id = refl
provider-IsCoherent ((j, resc) ∷ m) id = ground (arith, provider-IsCoherent m id)
