-- ===== src/ServerMaster/ExecutorManager/Run.antt =====
-- The executor manager and its resource manager over any interleaving of what their methods do under one
-- lock: RegisterExec and checkAliveImpl are two events each, with any others in between.
use microcosm.Base.{
  ℕ, suc, zero, String, Bool, true, false, not, none, some, Option, List, [], ◌∷◌, ◌≡◌, refl, arith,
  lookup, has, Map, String_eq, eq_iff, Bool-cases, lookup-insert, lookup-delete, ◌||◌, ◌==◌,
  if◌then◌else◌, inl, inr, Option-cases, is_some,
}
use microcosm.ServerMaster.ExecutorManager.{
  ExecutorManager, Executor, NodeInfo, HeartbeatRequest, new_executor_manager, remove_executor_impl,
  has_executor, apply_heartbeat, insert_executor, register_resource, mark_dead, first_dead,
  check_alive,
}
use microcosm.ServerMaster.Resource.{capacity_for_executor, register, unregister, update}

-- Beside the manager: the registrations that are between their halves, and the ids of those whose
-- executor was dropped before they came to the second.
pub record World : Type 0 where
  pub manager : ExecutorManager
  pub registering : List NodeInfo
  pub overtaken : List String

pub data Event : Type 0 where
  beats : ℕ → HeartbeatRequest → Event
  inserts : ℕ → NodeInfo → Event
  registers : ℕ → Event  -- the one at this place of registering
  marks : ℕ → Event
  removes : String → Event

abbrev pub keep_first :
    NodeInfo → Option (NodeInfo × List NodeInfo) → Option (NodeInfo × List NodeInfo)
keep_first x none = none
keep_first x (some (y, rest)) = some (y, x ∷ rest)

unfoldable pub take_at : ℕ → List NodeInfo → Option (NodeInfo × List NodeInfo)
take_at n [] = none
take_at zero (x ∷ xs) = some (x, xs)
take_at (suc n) (x ∷ xs) = keep_first x (take_at n xs)

abbrev pub complete : World → Option (NodeInfo × List NodeInfo) → World
complete w none = w
complete w (some (info, rest)) = record {
  manager = register_resource info w.manager;
  registering = rest;
  overtaken = if has info.id w.manager.executors then w.overtaken else info.id ∷ w.overtaken;
}

unfoldable pub step : Event → World → World
step (beats now req) w = record w { manager = (apply_heartbeat now req w.manager).0 }
step (inserts now info) w = record w {
  manager = insert_executor now info w.manager;
  registering = info ∷ w.registering;
}
step (registers n) w = complete w (take_at n w.registering)
step (marks now) w = record w { manager = (mark_dead now w.manager).0 }
step (removes id) w = record w { manager = (remove_executor_impl id w.manager).0 }

unfoldable pub run : List Event → World → World
run [] w = w
run (c ∷ cs) w = run cs (step c w)

abbrev pub start : ℕ → World
start ttl = record { manager = new_executor_manager ttl; registering = []; overtaken = [] }

unfoldable pub is_registering : String → List NodeInfo → Bool
is_registering id [] = false
is_registering id (x ∷ xs) = (x.id == id) || is_registering id xs

unfoldable pub is_overtaken : String → List String → Bool
is_overtaken id [] = false
is_overtaken id (x ∷ xs) = (x == id) || is_overtaken id xs

abbrev SoundAt : String → World → Type 0
SoundAt id w =
    ((not (has id w.manager.executors)
        || has id w.manager.resc_mgr
        || is_registering id w.registering)
      ≡ true)
    × ((not (has id w.manager.resc_mgr)
          || has id w.manager.executors
          || is_overtaken id w.overtaken)
        ≡ true)

ruleset maps = (arith, lookup-insert, lookup-delete)

has-apply_heartbeat :
    (id : String) (now : ℕ) (req : HeartbeatRequest) (e : ExecutorManager)
    → (has id (apply_heartbeat now req e).0.executors ≡ has id e.executors)
      × (has id (apply_heartbeat now req e).0.resc_mgr ≡ has id e.resc_mgr)
unfolding apply_heartbeat update
has-apply_heartbeat id now req e = elim (Option-cases (lookup req.executor_id e.executors)) [
  | inl q ↦ rw (q, apply_heartbeat) (refl, refl)
  | inr (exec, q) ↦ (grind (maps, eq_iff req.executor_id id), grind (maps, eq_iff exec.info.id id))
]

first_dead_found :
    (now : ℕ) (m : Map String Executor) (id : String) (exec : Executor)
    → first_dead now m ≡ some (id, exec)
    → has id m ≡ true
unfolding first_dead lookup
first_dead_found now [] id exec q = absurd (cc)
first_dead_found now ((k, x) ∷ m) id exec q = elim (Bool-cases (check_alive now x).1) [
  | inl alive ↦
      let more = first_dead_found now m id exec (ground (arith, alive, q)) in ground (arith, more)
  | inr dead ↦ ground (arith, eq_iff k id, dead, q)
]

has-mark_dead :
    (id : String) (now : ℕ) (e : ExecutorManager)
    → (has id (mark_dead now e).0.executors ≡ has id e.executors)
      × (has id (mark_dead now e).0.resc_mgr ≡ has id e.resc_mgr)
unfolding mark_dead
has-mark_dead id now e = elim (Option-cases (first_dead now e.executors)) [
  | inl q ↦ rw (mark_dead, q) (refl, refl)
  | inr ((k, exec), q) ↦
      let found = first_dead_found now e.executors k exec q in
      rw (mark_dead, q) (grind (maps, eq_iff k id, found), refl)
]

-- Of the registration that is taken out.
Taken : String → List NodeInfo → Option (NodeInfo × List NodeInfo) → Type 0
Taken id xs none = Unit
Taken id xs (some (x, rest)) = is_registering id xs ≡ ((x.id == id) || is_registering id rest)

take_at-Taken : (id : String) (n : ℕ) (xs : List NodeInfo) → Taken id xs (take_at n xs)
unfolding take_at Taken is_registering
take_at-Taken id n [] = tt
take_at-Taken id zero (x ∷ xs) = refl
take_at-Taken id (suc n) (x ∷ xs) = kept (take_at n xs) (unfold Taken in take_at-Taken id n xs)
  where
    kept :
        (o : Option (NodeInfo × List NodeInfo)) → Taken id xs o → Taken id (x ∷ xs) (keep_first x o)
    kept none t = tt
    kept (some (y, rest)) t = ground (arith, t)

complete-SoundAt :
    (id : String) (w : World) (o : Option (NodeInfo × List NodeInfo))
    → Taken id w.registering o
    → SoundAt id w
    → SoundAt id (complete w o)
unfolding Taken register is_overtaken
complete-SoundAt id w none t s = s
complete-SoundAt id w (some (info, rest)) t s =
    (grind (maps, eq_iff info.id id, t, s.0), grind (maps, eq_iff info.id id, s.1))

step-SoundAt : (id : String) (c : Event) (w : World) → SoundAt id w → SoundAt id (step c w)
unfolding step remove_executor_impl unregister is_registering
step-SoundAt id (beats now req) w s =
    let h = has-apply_heartbeat id now req w.manager in rw (h.0, h.1) s
step-SoundAt id (inserts now info) w s =
    (grind (maps, eq_iff info.id id, s.0), grind (maps, eq_iff info.id id, s.1))
step-SoundAt id (registers n) w s =
    complete-SoundAt id w (take_at n w.registering) (take_at-Taken id n w.registering) s
step-SoundAt id (marks now) w s = let h = has-mark_dead id now w.manager in rw (h.0, h.1) s
step-SoundAt id (removes k) w s = (grind (maps, eq_iff k id, s.0), grind (maps, eq_iff k id, s.1))

run-SoundAt : (id : String) (cs : List Event) (w : World) → SoundAt id w → SoundAt id (run cs w)
unfolding run
run-SoundAt id [] w s = s
run-SoundAt id (c ∷ cs) w s = run-SoundAt id cs (step c w) (step-SoundAt id c w s)

start-SoundAt : (ttl : ℕ) (id : String) → SoundAt id (start ttl)
unfolding new_executor_manager lookup
start-SoundAt ttl id = (refl, refl)

-- After any interleaving of heartbeats, the two halves of registrations, the checks of the leases and the
-- removals, from a new manager: an executor that the manager knows has a capacity, or a registration of it
-- is still between its halves; and what has a capacity is known to the manager, or was dropped between the
-- halves of its registration.
pub run_capacities :
    (ttl : ℕ) (cs : List Event) (id : String)
    → let w = run cs (start ttl) in
      let known = has_executor id w.manager in
      let capacity = is_some (capacity_for_executor id w.manager.resc_mgr) in
      ((not known || capacity || is_registering id w.registering) ≡ true)
      × ((not capacity || known || is_overtaken id w.overtaken) ≡ true)
unfolding has_executor capacity_for_executor
run_capacities ttl cs id =
    let s = run-SoundAt id cs (start ttl) (start-SoundAt ttl id) in
    (ground (arith, s.0), ground (arith, s.1))
