-- ===== src/Executor/TaskCommitter.antt =====
-- executor/worker/task_committer.go: a task is first registered under a request id and then confirmed.
-- The two maps point to the same entries, which nobody writes, so they hold the entries. A method
-- holds the lock throughout, and takes the clock's time where it reads it. The runner, the interface
-- WrappedTaskAdder, is a parameter.
pub mod Inv
pub mod Dispatch
pub mod Ttl
mod Tests
use microcosm.Base.{
  ℕ, suc, ◌+◌, String, Bool, true, false, Option, none, some, List, [], ◌∷◌, Map, lookup, insert,
  delete, has, String_eq, ltb, if◌then◌else◌, Outcome, returns, panics, ◌>>=◌,
}

-- internal.RunnableContainer, by the id of its task, and its submit time.
pub record WrappedTask : Type 0 where
  pub task_id : String
  pub submit_time : ℕ

pub record RequestEntry : Type 0 where
  pub request_id : String
  pub expire_at : ℕ
  pub task : WrappedTask

abbrev pub task_id_of : RequestEntry → String
task_id_of r = r.task.task_id

pub record TaskCommitter : Type 0 where
  pub pending_requests : Map String RequestEntry
  pub requests_by_task_id : Map String RequestEntry
  pub request_clean_up_count : ℕ
  pub request_ttl : ℕ

unfoldable pub new_task_committer : ℕ → TaskCommitter
new_task_committer request_ttl = record {
  pending_requests = [];
  requests_by_task_id = [];
  request_clean_up_count = 0;
  request_ttl = request_ttl;
}

unfoldable pub remove_request_by_id : String → TaskCommitter → Outcome TaskCommitter
remove_request_by_id id c = elim (lookup id c.pending_requests) [
  | none ↦ panics
  | some request ↦
      if has (task_id_of request) c.requests_by_task_id
      then returns (record c {
        pending_requests = delete id c.pending_requests;
        requests_by_task_id = delete (task_id_of request) c.requests_by_task_id;
      })
      else panics
]

-- A stale request for the same task goes first.
unfoldable pub remove_stale : String → TaskCommitter → Outcome TaskCommitter
remove_stale task_id c = elim (lookup task_id c.requests_by_task_id) [
  | none ↦ returns c
  | some request ↦ remove_request_by_id request.request_id c
]

abbrev pub new_request : ℕ → String → String → TaskCommitter → RequestEntry
new_request now r_id task_id c = record {
  request_id = r_id;
  expire_at = now + c.request_ttl;
  task = record { task_id = task_id; submit_time = now };
}

unfoldable pub add_request : RequestEntry → TaskCommitter → TaskCommitter
add_request request c = record c {
  pending_requests = insert request.request_id request c.pending_requests;
  requests_by_task_id = insert (task_id_of request) request c.requests_by_task_id;
}

unfoldable pub pre_dispatch_task :
    ℕ → String → String → TaskCommitter → Outcome (TaskCommitter × Bool)
pre_dispatch_task now r_id task_id c =
    if has r_id c.pending_requests
    then returns (c, false)
    else remove_stale task_id c >>= λ c'.
        returns (add_request (new_request now r_id task_id c) c', true)

-- The results (true, nil), (false, nil) and (false, err).
pub data Confirmed (E : Type 0) : Type 0 where
  done : Confirmed E
  not_found : Confirmed E
  failed : E → Confirmed E

abbrev pub confirmed :
    {R E : Type 0} → R × Option E → TaskCommitter → TaskCommitter × R × Confirmed E
confirmed (runner, none) c = (c, runner, done)
confirmed (runner, some e) c = (c, runner, failed e)

module _ {R E : Type 0} (add_wrapped_task : WrappedTask → R → R × Option E) where
  -- The task id that the caller gives is only logged.
  unfoldable pub confirm_dispatch_task :
      String → String → TaskCommitter → R → Outcome (TaskCommitter × R × Confirmed E)
  confirm_dispatch_task r_id task_id c runner = elim (lookup r_id c.pending_requests) [
    | none ↦ returns (c, runner, not_found)
    | some request ↦ remove_request_by_id r_id c >>= λ c'.
        returns (confirmed (add_wrapped_task request.task runner) c')
  ]

-- The body of the loop of checkTTLOnce, and the loop over the requests that it starts with.
unfoldable pub expire_entry : ℕ → String → RequestEntry → TaskCommitter → Outcome TaskCommitter
expire_entry now r_id request c =
    if ltb request.expire_at now then remove_request_by_id r_id c else returns c

unfoldable pub expire_from : ℕ → Map String RequestEntry → TaskCommitter → Outcome TaskCommitter
expire_from now [] c = returns c
expire_from now ((r_id, request) ∷ rest) c =
    expire_entry now r_id request c >>= expire_from now rest

unfoldable pub check_ttl_once : ℕ → TaskCommitter → Outcome TaskCommitter
check_ttl_once now c = expire_from now c.pending_requests c

-- A round of runTTLChecker.
unfoldable pub run_ttl_checker_round : ℕ → TaskCommitter → Outcome TaskCommitter
run_ttl_checker_round now c =
    check_ttl_once now (record c { request_clean_up_count = suc c.request_clean_up_count })

unfoldable pub clean_up_count : TaskCommitter → ℕ
clean_up_count c = c.request_clean_up_count
