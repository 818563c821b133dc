-- ===== src/Master/Manager/Handles.antt =====
-- lib/master/worker_handle.go: what a master does with the handle of a worker. The metadata client's
-- answer to a removal, and the encoding of a status, are parameters; a message to the worker only goes
-- to the sender.
use microcosm.Base.{
  ℕ, String, Bool, true, false, Option, none, some, [], ◌∷◌, ◌≡◌, refl, inl, inr, Map, All, lookup,
  has, String_eq, ℕ_eq, Outcome, returns, panics, ◌>>=◌, Returns, Returns-bind, has-some, ◌⊎◌,
  if◌then◌else◌, keys-has,
}
use microcosm.Master.Entry.{WorkerEntry, WorkerStatus, is_tombstone}
use microcosm.Master.Manager.{
  Manager, Handle, running, tombstone_of, MasterError, load, get_workers, get_workers_from,
  remove_tombstone_entry,
}
use microcosm.Master.Manager.Inv.{Inv, AllLive, live-lookup, load-found}
use microcosm.Master.Manager.Run.{remove_tombstone_entry-Inv}

unfoldable pub handle_id : Handle → String
handle_id (running id executor) = id
handle_id (tombstone_of id) = id

-- Status, the same for both kinds; a handle whose worker is gone is stale.
unfoldable pub handle_status : Handle → Manager → Outcome (Option WorkerStatus)
handle_status h m = elim (lookup (handle_id h) m.worker_entries) [
  | none ↦ panics
  | some r ↦ load r m >>= λ e. returns e.status
]

abbrev pub unwrap : Handle → Option Handle
unwrap (running id executor) = some (running id executor)
unwrap (tombstone_of id) = none

abbrev pub get_tombstone : Handle → Option Handle
get_tombstone (running id executor) = none
get_tombstone (tombstone_of id) = some (tombstone_of id)

-- pb.WorkerInfo.
pub record HandleInfo : Type 0 where
  pub id : String
  pub executor_id : String
  pub status : String

-- An answer of ToPB: (info, nil), (nil, nil) and (nil, err).
pub data HandlePb (E : Type 0) : Type 0 where
  info : HandleInfo → HandlePb E
  no_info : HandlePb E
  failed : E → HandlePb E

abbrev encoded : {E : Type 0} → String → String → E ⊎ String → HandlePb E
encoded id executor (inl e) = failed e
encoded id executor (inr bytes) = info (record { id = id; executor_id = executor; status = bytes })

unfoldable pub to_pb :
    {E : Type 0} → (Option WorkerStatus → E ⊎ String) → Handle → Manager → Outcome (HandlePb E)
to_pb marshal (running id executor) m =
    handle_status (running id executor) m >>= λ s. returns (encoded id executor (marshal s))
to_pb marshal (tombstone_of id) m = returns no_info

-- What Remove of the metadata client answers.
pub data Removal : Type 0 where
  removal_failed : MasterError → Removal
  was_missing was_removed : Removal

unfoldable pub clean_tombstone : Removal → String → Manager → Outcome (Manager × Option MasterError)
clean_tombstone (removal_failed e) id m = returns (m, some e)
clean_tombstone was_missing id m = returns (m, none)
clean_tombstone was_removed id m = remove_tombstone_entry id m >>= λ m'. returns (m', none)

-- CleanTombstone of a buried worker does not panic on a sound manager, and keeps it sound; once the
-- metadata is removed the manager has forgotten the worker, and an answer that it is removed already
-- is no error and changes nothing.
pub clean_tombstone-Inv :
    (answer : Removal) (id : String) (m : Manager)
    → Inv m
    → ((r : ℕ) (e : WorkerEntry)
        → lookup id m.worker_entries ≡ some r
        → lookup r m.heap ≡ some e
        → is_tombstone e ≡ true)
    → Returns (clean_tombstone answer id m) (λ (m', x).
      Inv m'
      × (answer ≡ was_removed → (x ≡ none) × (lookup id m'.worker_entries ≡ none))
      × (answer ≡ was_missing → (x ≡ none) × (m' ≡ m)))
unfolding clean_tombstone
clean_tombstone-Inv (removal_failed e) id m v t = (v, λ q. absurd (cc), λ q. absurd (cc))
clean_tombstone-Inv was_missing id m v t = (v, λ q. absurd (cc), λ q. (refl, refl))
clean_tombstone-Inv was_removed id m v t =
    Returns-bind (λ m'. Inv m' × (lookup id m'.worker_entries ≡ none)) _
      (remove_tombstone_entry id m) _ (remove_tombstone_entry-Inv id m t v)
      (λ m' (v', gone). (v', (λ q. (refl, gone)), λ q. absurd (cc)))

-- The handle has the id, and Status does not panic.
abbrev pub Serves : Manager → String × Handle → Type 0
Serves m (id, h) = (handle_id h ≡ id) × Returns (handle_status h m) (λ s. Unit)

Serves-known :
    (m : Manager) (id : String) (h : Handle)
    → Inv m
    → handle_id h ≡ id
    → has id m.worker_entries ≡ true
    → Serves m (id, h)
unfolding handle_status
Serves-known m id h v own known =
    let (r, q) = has-some (lookup id m.worker_entries) known in
    let (e, found) = live-lookup m id r v q in
    (own, rw (own, q, handle_status, load-found r m found) tt)

handle_id-choice :
    (dead : Bool) (id executor : String)
    → handle_id (if dead then tombstone_of id else running id executor) ≡ id
unfolding handle_id
handle_id-choice true id executor = refl
handle_id-choice false id executor = refl

get_workers_from-Serves :
    (m : Manager)
    → Inv m
    → (xs : Map String ℕ) → AllLive m.heap xs
    → All (λ x. has x.0 m.worker_entries ≡ true) xs
    → Returns (get_workers_from xs m) (All (Serves m))
unfolding get_workers_from
get_workers_from-Serves m v [] l k = tt
get_workers_from-Serves m v ((id, r) ∷ xs) l k =
    let (e, found) = has-some (lookup r m.heap) l.0 in
    rw (load-found r m found) (
      Returns-bind (All (Serves m)) (All (Serves m)) (get_workers_from xs m) _
        (get_workers_from-Serves m v xs l.1 k.1)
        (λ handles s.
          (Serves-known m id _ v (handle_id-choice (is_tombstone e) id e.executor_id) k.0, s)))

-- On a sound manager GetWorkers does not panic, and each handle that it gives is one of the worker that
-- it stands under, whose Status does not panic at that moment.
pub get_workers-Serves : (m : Manager) → Inv m → Returns (get_workers m) (All (Serves m))
unfolding get_workers
get_workers-Serves m v =
    get_workers_from-Serves m v m.worker_entries v.live (keys-has m.worker_entries)
