-- ===== src/Master/Creation/Tests.antt =====
-- Creations of a worker.
use microcosm.Base.{
  String, true, false, none, [], ◌∷◌, ◌≡◌, refl, has, lookup, All, Returns, String_eq,
}
use microcosm.Master.Manager.{Manager, ready}
use microcosm.Master.Creation.{
  response, status_error, aborted, other_code, Attempt, BaseMaster, master_meta, dispatch_worker,
  prepare_worker_config, create_worker, follow,
}
use microcosm.Master.Creation.Ends.{
  IsNew, Told, dispatch_worker-Told, Settled, create_worker-Settled,
}

abbrev no_workers : Manager
no_workers = record {
  heap = [];
  next_ref = 0;
  worker_entries = [];
  state = ready;
  epoch = 2;
  event_queue = [];
  err_center = none;
  all_workers_ready = false;
  worker_timeout = 15;
  worker_timeout_graceful = 5;
}

-- The first request gets lost, and the executor aborts the second step.
abbrev attempt : Attempt
attempt = record {
  now = 3;
  schedule_error = none;
  executor_id = "e";
  add_executor_error = none;
  rounds =
      record { done = false; reply = status_error other_code "unavailable"; no_time_left = false }
      ∷ record { done = false; reply = response; no_time_left = false }
      ∷ [];
  confirm = status_error aborted "timeout";
}

attempt-IsNew : All (λ r. IsNew r.reply) attempt.rounds
attempt-IsNew = (tt, (tt, tt))

nobody : (id : String) → has id no_workers.worker_entries ≡ false
unfolding lookup
nobody id = refl

dispatch_worker-Told_example :
    Returns
      (dispatch_worker "w" attempt no_workers)
      (λ m'. Told "w" attempt no_workers m' attempt.schedule_error)
dispatch_worker-Told_example =
    dispatch_worker-Told "w" attempt no_workers (nobody "w") attempt-IsNew

abbrev base : BaseMaster
base = record { create_worker_quota = 100; worker_manager = no_workers }

create_worker-Settled_example :
    Returns
      (follow attempt (create_worker 4 (master_meta "job") true "uuid" base))
      (Settled base (prepare_worker_config 4 (master_meta "job") true "uuid"))
create_worker-Settled_example =
    create_worker-Settled 4 (master_meta "job") true "uuid" attempt base refl (λ id q. nobody id)
      attempt-IsNew
