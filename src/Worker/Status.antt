-- ===== src/Worker/Status.antt =====
-- lib/statusutil/writer.go, and the status of a worker in lib/worker.go. Statuses are objects on a heap:
-- the writer remembers a reference to the last one, and the worker writes into its one object. What the
-- metadata client and the message sender answer, after all retries, are parameters.
pub mod Persisted
use microcosm.Base.{
  ℕ, String, Bool, true, false, not, Option, none, some, List, [], ◌∷◌, Map, lookup, insert, ℕ_eq,
  if◌then◌else◌, Outcome, returns, panics, ◌>>=◌,
}
use microcosm.Master.Entry.{WorkerStatus, StatusCode, has_significant_change}

pub record Writer : Type 0 where
  pub heap : Map ℕ WorkerStatus
  pub last_status : Option ℕ
  pub persisted : Option WorkerStatus

pub data WriteError : Type 0 where
  persist_failed send_failed worker_finish : WriteError

abbrev pub new_writer : Map ℕ WorkerStatus → Writer
new_writer heap = record { heap = heap; last_status = none; persisted = none }

unfoldable pub load : ℕ → Writer → Outcome WorkerStatus
load r w = elim (lookup r w.heap) [ none ↦ panics | some s ↦ returns s ]

-- Is the status to be written to the metadata?
unfoldable pub must_persist : ℕ → Writer → Outcome Bool
must_persist r w = elim w.last_status [
  | none ↦ returns true
  | some last ↦ do
    new_status ← load r w
    last_status ← load last w
    returns (has_significant_change new_status last_status)
]

-- An answer of the world: was the status written, and was the message sent before the timeout?
pub record World : Type 0 where
  pub writes : Bool
  pub sends : Bool

abbrev pub sent : Bool → Option WriteError
sent true = none
sent false = some send_failed

unfoldable pub remember : ℕ → Writer → Writer
remember r w = record w { last_status = some r }

unfoldable pub persist_status : ℕ → Writer → Outcome Writer
persist_status r w = do s ← load r w; returns (record w { persisted = some s })

-- Writer.UpdateStatus.
unfoldable pub update_status : World → ℕ → Writer → Outcome (Writer × Option WriteError)
update_status world r w = do
  significant ← must_persist r w
  if significant
      then if world.writes
        then persist_status r w >>= (λ w'. returns (remember r w', sent world.sends))
        else returns (w, some persist_failed)
      else returns (remember r w, sent world.sends)

-- The three fields that the worker writes into its object.
unfoldable pub assign : WorkerStatus → ℕ → Writer → Outcome Writer
assign status r w = elim (lookup r w.heap) [
  | none ↦ panics
  | some _ ↦ returns (record w { heap = insert r status w.heap })
]

-- DefaultBaseWorker.UpdateStatus; `r` is w.workerStatus.
unfoldable pub worker_update_status :
    World → WorkerStatus → ℕ → Writer → Outcome (Writer × Option WriteError)
worker_update_status world status r w = assign status r w >>= update_status world r

abbrev pub with_code : StatusCode → WorkerStatus → WorkerStatus
with_code code s = record s { code = code }

-- doPostInit: UpsertWorker of the metadata client, which may fail, and the first status.
unfoldable pub do_post_init : Bool → World → ℕ → Writer → Outcome (Writer × Option WriteError)
do_post_init upserts world r w = if not upserts then returns (w, some persist_failed) else do
  s ← load r w
  upserted ← persist_status r w
  w' ← assign (with_code StatusCode.init s) r upserted
  update_status world r w'

abbrev pub exit_code : Bool → WorkerStatus → WorkerStatus
exit_code true status = with_code StatusCode.error status
exit_code false status = status

-- Exit, with whether it is given an error.
unfoldable pub exit :
    World → WorkerStatus → Bool → ℕ → Writer → Outcome (Writer × Option WriteError)
exit world status failed r w =
    worker_update_status world (exit_code failed status) r w >>= λ (w', e). elim e [
      | none ↦ returns (w', some worker_finish)
      | some x ↦ returns (w', some x)
    ]
