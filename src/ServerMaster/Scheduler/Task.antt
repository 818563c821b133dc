-- ===== src/ServerMaster/Scheduler/Task.antt =====
-- ScheduleTask against what a placement has to meet.
use microcosm.Base.{
  Map, returns, String, true, false, none, some, Option, List, [], ◌∷◌, ◌≡◌, refl, subst, ◌∙◌,
  ltℤ→lt, leℤ→le, inl, inr, arith, All, All-mono, lookup, String_eq, ◌==◌, eq_iff, ℤ, ◌≤ℤ◌, Returns,
  Returns-bind, Bool-cases, Option-cases,
}
use microcosm.ServerMaster.Resource.{ExecutorResourceStatus, remaining}
use microcosm.ServerMaster.Scheduler.{
  cluster_resource_not_enough, CapacityProvider, Placement, constrained, unconstrained,
  placement_error, PlacementConstrainer, Result, ok, err, SchedulerRequest, SchedulerResponse,
  schedule_by_cost, check_cost_allows, get_constraint, schedule_by_cost_only, schedule_task,
  respond, constrained_task, is_empty,
}
use microcosm.ServerMaster.Scheduler.Capacity.{IsCoherent}
use microcosm.ServerMaster.Scheduler.Cost.{Shuffles, fits, schedule_by_cost_finds}
use microcosm.ServerMaster.Scheduler.Constraint.{Agrees, constraint_from_agrees}

-- The executor is known, and has at least the cost left.
abbrev pub Affords : CapacityProvider → ℤ → String → Type 0
Affords provider cost id =
    (s : ExecutorResourceStatus) × (provider.capacity_for_executor id ≡ some s)
    × (cost ≤ℤ remaining s)

abbrev pub Placed :
    CapacityProvider → PlacementConstrainer → SchedulerRequest → Result SchedulerResponse → Type 0
Placed provider place request (err e) = Unit
Placed provider place request (ok response) =
    Affords provider request.cost response.executor_id
    × All (λ r. Agrees (place r) response.executor_id) request.external_resources

fits-Affords :
    (provider : CapacityProvider) (cost : ℤ) (id : String)
    → IsCoherent provider
    → fits cost provider.capacities_for_all_executors id ≡ true
    → Affords provider cost id
fits-Affords provider cost id co f =
    elim (Option-cases (lookup id provider.capacities_for_all_executors)) [
      | inl missing ↦ absurd (ground arith)
      | inr (s, q) ↦ (s, co id ∙ q, omega (arith, ltℤ→lt cost (remaining s) (ground arith)))
    ]

allows-Affords :
    (provider : CapacityProvider) (request : SchedulerRequest) (id : String)
    → check_cost_allows provider request id ≡ true
    → Affords provider request.cost id
unfolding check_cost_allows
allows-Affords provider request id h = elim (Option-cases (provider.capacity_for_executor id)) [
  | inl missing ↦ absurd (ground arith)
  | inr (s, q) ↦ (s, q, leℤ→le request.cost (remaining s) (ground arith))
]

-- What the constraints leave open is nothing: an unconstrained or empty placement fits anywhere.
Agrees-anywhere :
    (place : PlacementConstrainer) (rs : List String) (x : String)
    → All (λ r. Agrees (place r) "") rs
    → All (λ r. Agrees (place r) x) rs
Agrees-anywhere place rs x = All-mono rs (λ r h. anywhere (place r) h)
  where
    anywhere : (p : Placement) → Agrees p "" → Agrees p x
    anywhere (constrained y) h = inl (ground arith)
    anywhere unconstrained h = tt
    anywhere (placement_error e) h = h

All-empty : (P : String → Type 0) (xs : List String) → is_empty xs ≡ true → All P xs
All-empty P [] h = tt
All-empty P (x ∷ xs) h = absurd (cc)

module _ (shuffle : List String → List String) (provider : CapacityProvider)
    (place : PlacementConstrainer) (request : SchedulerRequest) (sh : Shuffles shuffle)
    (co : IsCoherent provider) where
  by_cost :
      ((x : String) → All (λ r. Agrees (place r) x) request.external_resources)
      → Returns (schedule_by_cost_only shuffle provider request) (Placed provider place request)
  unfolding schedule_by_cost_only
  by_cost free =
      Returns-bind _ (Placed provider place request)
        (schedule_by_cost shuffle provider request.cost) _
        (schedule_by_cost_finds shuffle provider request.cost sh) spell
    where
      spell :
          (r : Option String)
          → ((id : String)
              → r ≡ some id
              → fits request.cost provider.capacities_for_all_executors id ≡ true)
            × (r ≡ none
                → (id : String)
                → fits request.cost provider.capacities_for_all_executors id ≡ false)
          → Placed provider place request (respond r)
      spell none f = tt
      spell (some id) f = (fits-Affords provider request.cost id co (f.0 id refl), free id)

  constrained_to :
      (c : Result String)
      → get_constraint place request.external_resources ≡ c
      → Returns (constrained_task shuffle provider request c) (Placed provider place request)
  constrained_to (err e) q = tt
  constrained_to (ok x) q =
      let (all, _) =
        constraint_from_agrees place request.external_resources "" "" x
          (unfold get_constraint in q) in
      elim (Bool-cases (x == "")) [
        | inl open_ ↦ rw open_ (
            by_cost (λ y. Agrees-anywhere place request.external_resources y (
              subst (λ z. All (λ r. Agrees (place r) z) request.external_resources)
                ((eq_iff x "").0 open_) all)))
        | inr bound ↦ elim (Bool-cases (check_cost_allows provider request x)) [
          | inl room ↦ rw (bound, room) (allows-Affords provider request x room, all)
          | inr full ↦ rw (bound, full) tt
        ]
      ]

  -- With a shuffle that permutes and a coherent provider ScheduleTask does not panic, and an executor
  -- that it answers is known, has at least the cost left, and is the one that each resource of the
  -- task asks for, if it asks for one.
  pub schedule_task-Placed :
      Returns (schedule_task shuffle provider place request) (Placed provider place request)
  unfolding schedule_task
  schedule_task-Placed = elim (Bool-cases (is_empty request.external_resources)) [
    | inl free ↦ rw free (by_cost (λ x. All-empty (λ r. Agrees (place r) x) _ free))
    | inr some_ ↦ rw some_ (constrained_to (get_constraint place request.external_resources) refl)
  ]

-- Without a resource to stay with: an executor with more than the cost left, or there is none.
abbrev pub BestEffort : ℤ → Map String ExecutorResourceStatus → Result SchedulerResponse → Type 0
BestEffort cost caps (ok response) = fits cost caps response.executor_id ≡ true
BestEffort cost caps (err e) =
    (e ≡ cluster_resource_not_enough) × ((id : String) → fits cost caps id ≡ false)

-- With a shuffle that permutes, ScheduleTask of a task without resources does not panic: it answers an
-- executor that has more than the cost left, or the error that there is not enough, and then no
-- executor has.
pub schedule_task-BestEffort :
    (shuffle : List String → List String) (provider : CapacityProvider)
    (place : PlacementConstrainer) (request : SchedulerRequest)
    → Shuffles shuffle
    → is_empty request.external_resources ≡ true
    → Returns
        (schedule_task shuffle provider place request)
        (BestEffort request.cost provider.capacities_for_all_executors)
unfolding schedule_task schedule_by_cost_only
schedule_task-BestEffort shuffle provider place request sh free = rw free (
    Returns-bind _ (BestEffort request.cost provider.capacities_for_all_executors)
      (schedule_by_cost shuffle provider request.cost) _
      (schedule_by_cost_finds shuffle provider request.cost sh) spell)
  where
    spell :
        (r : Option String)
        → ((id : String)
            → r ≡ some id
            → fits request.cost provider.capacities_for_all_executors id ≡ true)
          × (r ≡ none
              → (id : String) → fits request.cost provider.capacities_for_all_executors id ≡ false)
        → Returns
            (returns (respond r))
            (BestEffort request.cost provider.capacities_for_all_executors)
    spell none f = (refl, f.1 refl)
    spell (some id) f = f.0 id refl
