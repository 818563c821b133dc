-- ===== src/Master/Manager/Init.antt =====
-- InitAfterRecover of lib/master/worker_manager.go, as the three parts between which m.mu is free.
use microcosm.Base.{
  ℕ, String, ◌||◌, Option, none, some, [], ◌∷◌, Map, length, eqb, if◌then◌else◌, Outcome, returns,
  panics, ◌>>=◌, not,
}
use microcosm.Master.Entry.{
  WorkerStatus, StatusCode, same_code, is_wait, is_finished, new_waiting_worker_entry,
  mark_as_tombstone,
}
use microcosm.Master.Manager.{
  Manager, ready, waiting_heartbeat, is_loading, load, store, alloc, MasterError, on_error,
}

unfoldable pub init_begin : Manager → Outcome Manager
init_begin m = if not (is_loading m.state) then panics else returns m

-- A worker that had finished is not waited for.
unfoldable pub load_workers : Map String WorkerStatus → Manager → Manager
load_workers [] m = m
load_workers ((id, status) ∷ rest) m = load_workers rest (
    if same_code status.code StatusCode.finished
    then m
    else alloc id (new_waiting_worker_entry id (some status)) m)

-- What LoadAllWorkers of the metadata client answers.
pub data Loaded : Type 0 where
  failed : MasterError → Loaded
  workers : Map String WorkerStatus → Loaded

-- With no active worker the manager is ready at once; else it waits for heartbeats.
unfoldable pub init_load : Loaded → Manager → Manager × Option MasterError
init_load (failed e) m = (on_error (some e) m, some e)
init_load (workers persisted) m =
    let m' = load_workers persisted m in
    (
      record m' { state = if eqb (length m'.worker_entries) 0 then ready else waiting_heartbeat },
      none,
    )

unfoldable pub bury_entry : ℕ → Manager → Outcome Manager
bury_entry r m = do
  e ← load r m
  if is_wait e.state || is_finished e
      then mark_as_tombstone e >>= (λ dead. returns (store r dead m))
      else returns m

unfoldable pub bury_missing : Map String ℕ → Manager → Outcome Manager
bury_missing [] m = returns m
bury_missing ((id, r) ∷ rest) m = bury_entry r m >>= bury_missing rest

-- After the timer, or once all workers have sent a heartbeat.
unfoldable pub init_resume : Manager → Outcome Manager
init_resume m = bury_missing m.worker_entries m >>= λ m'. returns (record m' { state = ready })
