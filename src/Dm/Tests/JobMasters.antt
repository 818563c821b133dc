-- ===== src/Dm/Tests/JobMasters.antt =====
-- A job master that is recovered with two workers, one of a task that the job does not have.
use microcosm.Base.{
  ℕ, suc, String, true, false, Option, none, some, List, [], ◌∷◌, ◌≡◌, refl, insert, lookup, IsMap,
  String_eq, Returns,
}
use microcosm.Dm.Runtime.{
  TaskStatus, unmarshal_task_status, stage_running, new_worker_status, worker_online,
  worker_dm_dump, worker_dm_load, worker_missing,
}
use microcosm.Dm.Store.Coherent.{IsCoherent, Keeps}
use microcosm.Dm.WorkerManager.{
  CheckpointAgent, fresh, worker_seq, update_worker_status, new_statuses,
}
use microcosm.Dm.WorkerManager.Loops.{AllFitting}
use microcosm.Dm.MessageAgent.{Outside, stop_request, stop_worker, send_to}
use microcosm.Dm.JobMaster.{
  WorkerHandle, JobMaster, components, get_init_status, create_components, on_worker_online, Turn,
  run_workers_check,
}
use microcosm.Dm.JobMaster.Reach.{
  Reached, created, stepped, online, Sound, Reached-Sound, Reached-stop_worker,
}
use microcosm.Dm.JobMaster.Settles.{CreatesWithId, IsChecked, run_workers_check-IsChecked}
use microcosm.Dm.Tests.{one_task, one_task_codec, one_task_codec-RoundTrips}

abbrev reports : String → Option TaskStatus
reports task = some (record { unit = worker_dm_dump; task = task; stage = stage_running })

abbrev handles : List WorkerHandle
handles =
    record { id = "w1"; is_tombstone = false; ext = reports "t1" }
    ∷ record { id = "w2"; is_tombstone = false; ext = reports "old" }
    ∷ record { id = "w3"; is_tombstone = true; ext = none }
    ∷ []

-- A master that creates the worker "new" and counts the calls.
abbrev counting : Outside ℕ
counting = record {
  create_worker = λ unit cfg resources n. (suc n, "new", none);
  send_message = λ worker_id message n. (suc n, none);
}

abbrev all_fresh : CheckpointAgent
all_fresh unit task = fresh true

abbrev recovered : JobMaster ℕ
recovered = components 0 (some "running") 0 (record {
  task_statuses =
      record { unit = worker_dm_dump; task = "t1"; stage = stage_running }
      ∷ record { unit = worker_dm_dump; task = "old"; stage = stage_running }
      ∷ [];
  worker_statuses =
      new_worker_status "t1" worker_dm_dump "w1" worker_online
      ∷ new_worker_status "old" worker_dm_dump "w2" worker_online
      ∷ [];
  senders = ("t1", "w1") ∷ ("old", "w2") ∷ [];
})

is_recovered : create_components 0 (some "running") 0 handles ≡ some recovered
unfolding create_components get_init_status unmarshal_task_status insert
is_recovered = refl

is_reached : Reached one_task_codec counting all_fresh recovered
is_reached = created 0 (some "running") 0 handles is_recovered

abbrev restarted : WorkerHandle
restarted = record { id = "w4"; is_tombstone = false; ext = reports "t1" }

Reached-Sound_example :
    Sound one_task_codec counting all_fresh (on_worker_online restarted recovered).0
Reached-Sound_example =
    Reached-Sound one_task_codec counting all_fresh (stepped is_reached (online restarted))

w1_status :
    lookup "t1" recovered.workers ≡ some (new_worker_status "t1" worker_dm_dump "w1" worker_online)
unfolding new_statuses update_worker_status insert lookup
w1_status = refl

Reached-stop_worker_example :
    stop_worker counting "t1" "w1" recovered.agent
    ≡ (elim (lookup "t1" recovered.agent.send_handles) [
      | none ↦ (recovered.agent, some (worker_missing "t1"))
      | some _ ↦ send_to counting "w1" stop_request recovered.agent
    ])
Reached-stop_worker_example =
    Reached-stop_worker one_task_codec counting all_fresh "t1"
      (new_worker_status "t1" worker_dm_dump "w1" worker_online) is_reached w1_status

abbrev turn : Turn
turn = record { guard_at = 1; start_at = 2; check_at = 3; end_at = 4; reading = none; half = [] }

creates : CreatesWithId counting
creates unit cfg resources m q = refl

coherent : IsCoherent one_task_codec recovered.store
coherent job q = absurd (cc)

kept : Keeps one_task_codec recovered.store (one_task stage_running)
kept = ("running", refl, refl)

unique : IsMap recovered.workers
unfolding new_statuses update_worker_status insert lookup
unique = (refl, (refl, tt))

one : IsMap (one_task stage_running)
unfolding lookup
one = (refl, tt)

fits : AllFitting (one_task stage_running) recovered.workers
unfolding new_statuses update_worker_status insert lookup worker_seq
fits = ((worker_dm_dump ∷ worker_dm_load ∷ [], refl, refl), tt)

run_workers_check-IsChecked_example :
    Returns
      (run_workers_check one_task_codec counting all_fresh turn recovered)
      (IsChecked counting creates turn recovered (one_task stage_running))
run_workers_check-IsChecked_example =
    run_workers_check-IsChecked counting creates one_task_codec all_fresh turn recovered
      (one_task stage_running) one_task_codec-RoundTrips refl coherent kept one unique fits
