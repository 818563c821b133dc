-- ===== src/ExternalResource/Placing.antt =====
-- The resource service, the executor manager, the resource manager and the scheduler together.
use microcosm.Base.{
  String, true, false, Option, none, some, List, String_eq, Returns, Returns-mono, ◌≡◌, refl, ◌⊎◌,
  inl, inr, arith, subst, All, All-mono, Text, text_of, Option-cases,
}
use microcosm.ServerMaster.ExecutorManager.{ExecutorManager, has_executor}
use microcosm.ServerMaster.Scheduler.{
  Placement, SchedulerRequest, SchedulerResponse, Result, ok, err, schedule_task,
}
use microcosm.ServerMaster.Scheduler.Capacity.{provider, provider-IsCoherent}
use microcosm.ServerMaster.Scheduler.Cost.{Shuffles}
use microcosm.ServerMaster.Scheduler.Constraint.{Agrees}
use microcosm.ServerMaster.Scheduler.Task.{Placed, Affords, schedule_task-Placed}
use microcosm.ExternalResource.{
  local_file, ResourceMeta, Table, find, get_resource_by_id, placed_at, parse_resource_path,
  get_placement_constraint,
}

module _ (executors : ExecutorManager) (fault : String → Option String) (t : Table) where
  abbrev pub place : String → Placement
  place = get_placement_constraint (λ e. has_executor e executors) fault t

  -- A local resource is in the table, on an executor that is known, and the task runs there.
  abbrev pub Stays : String → String → Type 0
  Stays x id =
      (name : Text)
      → parse_resource_path (text_of id) ≡ some (local_file, name)
      → (m : ResourceMeta) × (find id t ≡ some m)
        × (m.deleted ≡ false)
        × (has_executor m.executor executors ≡ true)
        × ((m.executor ≡ "") ⊎ (m.executor ≡ x))

  placed_at-Stays :
      (id x : String) (f : Option String)
      → Agrees (placed_at (λ e. has_executor e executors) id (get_resource_by_id f id t)) x
      → (m : ResourceMeta) × (find id t ≡ some m)
        × (m.deleted ≡ false)
        × (has_executor m.executor executors ≡ true)
        × ((m.executor ≡ "") ⊎ (m.executor ≡ x))
  unfolding get_resource_by_id
  placed_at-Stays id x (some e) a = absurd a
  placed_at-Stays id x none a = elim (Option-cases (find id t)) [
    | inl gone ↦ absurd (ground (arith, gone, a))
    | inr (m, held) ↦ ground (arith, held, a)
  ]

  place_local :
      (id : String) (name : Text)
      → parse_resource_path (text_of id) ≡ some (local_file, name)
      → place id ≡ placed_at (λ e. has_executor e executors) id (get_resource_by_id (fault id) id t)
  unfolding get_placement_constraint
  place_local id name q = rw (get_placement_constraint, q) refl

  place-Stays : (id x : String) → Agrees (place id) x → Stays x id
  place-Stays id x a name local_ =
      placed_at-Stays id x (fault id) (subst (λ p. Agrees p x) (place_local id name local_) a)

  abbrev pub Scheduled : SchedulerRequest → Result SchedulerResponse → Type 0
  Scheduled request (err e) = Unit
  Scheduled request (ok response) =
      Affords (provider executors.resc_mgr) request.cost response.executor_id
      × All (Stays response.executor_id) request.external_resources

  -- With a shuffle that permutes, and the resource service for its placements, ScheduleTask does not
  -- panic, and the executor that it answers has at least the cost left; each local resource of the task
  -- is then in the table, not deleted and on an executor that is known, and that one is the answer,
  -- unless the resource was created with an empty executor.
  pub schedule_task-Scheduled :
      (shuffle : List String → List String) (request : SchedulerRequest)
      → Shuffles shuffle
      → Returns
          (schedule_task shuffle (provider executors.resc_mgr) place request)
          (Scheduled request)
  schedule_task-Scheduled shuffle request sh =
      Returns-mono (Placed (provider executors.resc_mgr) place request) (Scheduled request)
        (schedule_task shuffle (provider executors.resc_mgr) place request)
        (schedule_task-Placed shuffle (provider executors.resc_mgr) place request sh
          (provider-IsCoherent executors.resc_mgr))
        stays
    where
      stays :
          (r : Result SchedulerResponse)
          → Placed (provider executors.resc_mgr) place request r
          → Scheduled request r
      stays (err e) h = tt
      stays (ok response) (affords, all) = (
        affords,
        All-mono request.external_resources (λ id a. place-Stays id response.executor_id a) all,
      )
