-- ===== src/Executor/TaskCommitter/Tests.antt =====
-- Runs of the committer.
use microcosm.Base.{ℕ, suc, String, none, Option, refl, lookup, insert, String_eq, Returns}
use microcosm.Executor.TaskCommitter.{
  TaskCommitter, RequestEntry, WrappedTask, new_task_committer, new_request, add_request,
  confirm_dispatch_task, check_ttl_once,
}
use microcosm.Executor.TaskCommitter.Inv.{Inv, new_task_committer-Inv, add_request-Inv}
use microcosm.Executor.TaskCommitter.Dispatch.{HandedOver, confirm_dispatch_task_once}
use microcosm.Executor.TaskCommitter.Ttl.{TtlDone, check_ttl_once_removes}

abbrev empty : TaskCommitter
empty = new_task_committer 10

abbrev first : RequestEntry
first = new_request 0 "r1" "t" empty

abbrev holding : TaskCommitter
holding = add_request first empty

holding-Inv : Inv holding
unfolding new_task_committer lookup
holding-Inv = add_request-Inv first empty refl refl (new_task_committer-Inv 10)

-- The runner counts the tasks that it takes.
abbrev take : WrappedTask → ℕ → ℕ × Option String
take task n = (suc n, none)

confirm_dispatch_task_once_example :
    Returns (confirm_dispatch_task take "r1" "t" holding 0) (HandedOver take "r1" "t" first 0)
unfolding add_request new_task_committer lookup insert
confirm_dispatch_task_once_example =
    confirm_dispatch_task_once take "r1" "t" holding 0 first holding-Inv refl

check_ttl_once_removes_example : Returns (check_ttl_once 11 holding) (TtlDone 11 holding)
unfolding add_request new_task_committer lookup insert
check_ttl_once_removes_example = check_ttl_once_removes 11 holding holding-Inv (refl, tt)
