-- ===== src/ServerMaster/ExecutorManager/Leases.antt =====
-- The check of the leases, and what a heartbeat buys.
use microcosm.Base.{
  ℕ, Option, ◌+◌, ◌*◌, ◌≤◌, String, Bool, true, false, not, none, some, [], ◌∷◌, ◌≡◌, refl, ◌⊎◌,
  inl, inr, arith, Map, lookup, lookup-insert, lookup-delete, has, ◌&&◌, insert, lookup-insert_self,
  IsMap, ltb, ◌||◌, ap, ◌∙◌, String_eq, ◌==◌, eq_iff, if◌then◌else◌, Bool-cases,
}
use microcosm.ServerMaster.Resource.{
  ExecutorStatus, initing, running, disconnected, tombstone, unregister, update,
}
use mathlib.Core.Option
use microcosm.ServerMaster.ExecutorManager.{
  ExecutorManager, Executor, HeartbeatRequest, responds, millisecond, is_tombstone,
  handle_heartbeat, apply_heartbeat, mark_dead, ManagerError, tombstone_executor,
  unknown_executor_id, remove_marked, check_alive, first_dead, remove_executor_impl,
}
use microcosm.ServerMaster.ExecutorManager.Keys.{IsSound}

-- The executor has not been heard of for longer than its lease, or it is a tombstone.
abbrev pub is_dead : ℕ → Executor → Bool
is_dead now exec = is_tombstone exec.status || ltb (exec.last_update_time + exec.heartbeat_ttl) now

abbrev AllAlive : ℕ → Map String Executor → Type 0
AllAlive now m =
    (id : String) (exec : Executor) → lookup id m ≡ some exec → is_dead now exec ≡ false

-- The loop stops at an executor whose lease is over, or there is none.
abbrev Finds : ℕ → Map String Executor → String → Executor → Type 0
Finds now m id exec =
    (lookup id m ≡ some exec)
    × (first_dead now m ≡ some (id, (check_alive now exec).0))
    × (is_dead now exec ≡ true)

alive_lem : (now : ℕ) (exec : Executor) → (check_alive now exec).1 ≡ not (is_dead now exec)
unfolding check_alive
alive_lem now exec = ground arith

first_dead_lem :
    (now : ℕ) (m : Map String Executor)
    → IsMap m
    → ((first_dead now m ≡ none) × AllAlive now m)
      ⊎ ((id : String) × (exec : Executor) × Finds now m id exec)
unfolding first_dead lookup
first_dead_lem now [] h = inl (refl, λ id exec q. absurd (cc))
first_dead_lem now ((k, exec) ∷ m) h = elim (Bool-cases (check_alive now exec).1) [
  | inr dead ↦
      inr (k, exec, (ground (arith, eq_iff k k), rw dead refl, ground (arith, alive_lem now exec)))
  | inl alive ↦ elim (first_dead_lem now m h.1) [
    | inl (q, all) ↦ inl (
      rw alive q,
      λ id x found. elim (Bool-cases (k == id)) [
        | inl hit ↦ ground (arith, alive_lem now exec)
        | inr miss ↦ all id x (ground arith)
      ],
    )
    | inr (id, x, (found, q, d)) ↦ inr (id, x, (ground (arith, eq_iff k id), rw alive q, d))
  ]
]

-- What checkAliveImpl does under the manager's lock: nothing, where every executor is alive, or the
-- executor `id`, which is not, becomes a tombstone, whose heartbeats change nothing, and nothing else
-- changes.
abbrev pub Marks : ℕ → ExecutorManager → ExecutorManager × Option String → Type 0
Marks now e (e', none) = (e' ≡ e) × AllAlive now e.executors
Marks now e (e', some id) =
    ((exec : Executor) × (lookup id e.executors ≡ some exec)
      × (is_dead now exec ≡ true)
      × (lookup id e'.executors ≡ some (record exec { status = tombstone })))
    × ((later : ℕ) (req : HeartbeatRequest)
        → apply_heartbeat later (record req { executor_id = id }) e'
          ≡ (e', responds (some (tombstone_executor id))))
    × ((j : String) → (id == j) ≡ false → lookup j e'.executors ≡ lookup j e.executors)
    × (e'.resc_mgr ≡ e.resc_mgr)

tombstone_lem : (s : ExecutorStatus) → is_tombstone s ≡ true → s ≡ tombstone
tombstone_lem initing q = absurd (cc)
tombstone_lem running q = absurd (cc)
tombstone_lem disconnected q = absurd (cc)
tombstone_lem tombstone q = refl

dead_status :
    (now : ℕ) (exec : Executor)
    → is_dead now exec ≡ true
    → (check_alive now exec).0 ≡ record exec { status = tombstone }
unfolding check_alive
dead_status now exec d = elim (Bool-cases (is_tombstone exec.status)) [
  | inl t ↦ rw t (ap (λ s. record exec { status = s }) (tombstone_lem exec.status t))
  | inr up ↦ elim (Bool-cases (ltb (exec.last_update_time + exec.heartbeat_ttl) now)) [
    | inl late ↦ rw (up, late) refl
    | inr soon ↦ absurd (ground arith)
  ]
]

unheard :
    (later : ℕ) (id : String) (req : HeartbeatRequest) (exec : Executor) (e : ExecutorManager)
    → lookup id e.executors ≡ some (record exec { status = tombstone })
    → apply_heartbeat later (record req { executor_id = id }) e
      ≡ (e, responds (some (tombstone_executor id)))
unfolding apply_heartbeat
unheard later id req exec e q = rw (q, apply_heartbeat) refl

mark_dead-Marks :
    (now : ℕ) (e : ExecutorManager) → IsMap e.executors → Marks now e (mark_dead now e)
unfolding mark_dead
mark_dead-Marks now e h = elim (first_dead_lem now e.executors h) [
  | inl (q, all) ↦ rw (mark_dead, q) (refl, all)
  | inr (id, exec, (found, q, d)) ↦
      let dead = (check_alive now exec).0 in
      let marked : ExecutorManager = record e { executors = insert id dead e.executors } in
      let is_marked : lookup id marked.executors ≡ some (record exec { status = tombstone }) =
        lookup-insert_self id dead e.executors ∙ ap some (dead_status now exec d) in
      rw (mark_dead, q)
        (
          (exec, found, d, is_marked),
          λ later req. unheard later id req exec marked is_marked,
          λ j n.
              lookup-insert id j dead e.executors
              ∙ ap (λ b. if b then some dead else lookup j e.executors) n,
          refl,
        )
]

-- What checkAliveImpl does after it has given up the lock, on the manager as it is by then.
abbrev pub Removes :
    Option String → ExecutorManager → ExecutorManager × Option ManagerError → Type 0
Removes none e (e', answer) = (e' ≡ e) × (answer ≡ none)
Removes (some id) e (e', answer) =
    (answer ≡ (if has id e.executors then none else some (unknown_executor_id id)))
    × ((j : String)
        → (lookup j e'.executors ≡ (if id == j then none else lookup j e.executors))
          × (lookup j e'.resc_mgr
              ≡ (if has id e.executors && (id == j) then none else lookup j e.resc_mgr)))

remove_marked-Removes :
    (o : Option String) (e : ExecutorManager) → Removes o e (remove_marked (e, o))
unfolding remove_executor_impl unregister
remove_marked-Removes none e = (refl, refl)
remove_marked-Removes (some id) e = (
  ground arith,
  λ j. (grind (arith, lookup-delete, eq_iff id j), grind (arith, lookup-delete, eq_iff id j)),
)

-- The check of the leases, whose map has no key twice, and its removal, on whatever the manager has
-- become in between. The check changes nothing, where no executor is a tombstone or past its lease; or
-- it makes exactly one such executor a tombstone, and a heartbeat of it in between is answered with the
-- error for tombstones and changes nothing. The removal then takes that executor, if it is still known,
-- from the executors and from the resource manager, and no other from either; for an unknown one it
-- answers an error and changes nothing; and for none it does nothing.
pub check_alive_impl-Removes :
    (now : ℕ) (e between : ExecutorManager)
    → IsMap e.executors
    → Marks now e (mark_dead now e)
      × Removes (mark_dead now e).1 between (remove_marked (between, (mark_dead now e).1))
check_alive_impl-Removes now e between h =
    (mark_dead-Marks now e h, remove_marked-Removes (mark_dead now e).1 between)

-- The heartbeat of a known executor that is no tombstone, and does not call itself one, is answered
-- without an error, its usage is on the resource manager's books, and until its ttl has passed the
-- executor counts as alive. The two managers are in step before.
pub heartbeat_renews_lease :
    (now later : ℕ) (req : HeartbeatRequest) (e : ExecutorManager) (exec : Executor)
    → IsSound e
    → lookup req.executor_id e.executors ≡ some exec
    → is_tombstone exec.status ≡ false
    → is_tombstone req.status ≡ false
    → later ≤ now + req.ttl * millisecond
    → let (after, answer) = handle_heartbeat now req e in
      (answer ≡ responds none)
      × ((x : Executor) → lookup req.executor_id after.executors ≡ some x → is_dead later x ≡ false)
      × (Option.map (λ r. r.used) (lookup req.executor_id after.resc_mgr) ≡ some req.resource_usage)
unfolding handle_heartbeat update check_alive
heartbeat_renews_lease now later req e exec s found up status lease = (
  grind (arith, s req.executor_id),
  λ x q. grind (arith, s req.executor_id, lookup-insert_self),
  grind (arith, s req.executor_id, lookup-insert_self),
)
