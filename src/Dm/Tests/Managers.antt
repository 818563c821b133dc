-- ===== src/Dm/Tests/Managers.antt =====
-- The ticker and the managers, on a job with one task.
use microcosm.Base.{
  ◌<◌, String, true, false, Option, none, some, List, [], ◌∷◌, ◌≡◌, refl, lookup, has, All, Map,
  String_eq, if◌then◌else◌, arith, Returns, returns, eqb,
}
use Prim.Native.Nat.{◌^◌}
use microcosm.Dm.Ticker.{DefaultTicker, is_due, advance_check_time}
use microcosm.Dm.Ticker.Earliest.{set_all, any_come, is_due-set_all}
use microcosm.Dm.Runtime.{
  Job, TaskStatus, TaskStage, stage_running, stage_paused, mode_all, WorkerStatus,
  new_worker_status, worker_finished, is_finished, DmError, worker_dm_dump, worker_dm_load,
  worker_dm_sync,
}
use microcosm.Dm.Store.{got}
use microcosm.Dm.TaskManager.{tick_impl}
use microcosm.Dm.TaskManager.Operates.{is_scheduled, deviating, operate_all, tick_impl-operate_all}
use microcosm.Dm.WorkerManager.{CheckpointAgent, fresh, worker_seq, get_next_unit, get_current_unit}
use microcosm.Dm.WorkerManager.Units.{
  is_unit, successor, Resumes, get_next_unit-successor, get_current_unit-Resumes,
}
use microcosm.Dm.MessagePair.{receive, load_response, send_response, request_not_found}
use microcosm.Dm.MessagePair.Delivers.{
  Event, began, ended, received, sent, after, requests, is_open, answer_of, response, refusal,
  receive-answer_of,
}
use microcosm.Dm.Tests.{task_with, one_task}

abbrev checked : DefaultTicker
checked = record {
  last_check_time = 5;
  next_check_time = 9;
  normal_interval = 30;
  error_interval = 10;
}

is_due-set_all_example :
    is_due 12 (set_all (40 ∷ 11 ∷ []) (advance_check_time 10 checked)) ≡ any_come 12 (40 ∷ 11 ∷ [])
is_due-set_all_example = is_due-set_all 10 12 40 (11 ∷ []) checked (omega arith, (omega arith, tt))

-- The calls of OperateTask.
abbrev operate_log :
    List (String × TaskStage) → String → TaskStage → List (String × TaskStage) × Option DmError
operate_log calls id stage = ((id, stage) ∷ calls, none)

abbrev paused_status : Map String TaskStatus
paused_status =
    ("t1", record { unit = worker_dm_dump; task = "t1"; stage = stage_paused })
    ∷ ("gone", record { unit = worker_dm_dump; task = "gone"; stage = stage_running })
    ∷ []

abbrev running : Job
running = one_task stage_running

tick_impl-operate_all_example :
    ((id : String)
      → lookup id (tick_impl operate_log (got running) paused_status []).0
        ≡ (if has id running then lookup id paused_status else none))
    × ((tick_impl operate_log (got running) paused_status []).1
        ≡ operate_all operate_log (deviating running paused_status) [])
    × ((tick_impl operate_log (got running) paused_status []).2 ≡ none
        → All (λ entry. is_scheduled (lookup entry.0 paused_status) ≡ true) running)
tick_impl-operate_all_example = tick_impl-operate_all operate_log running paused_status []

abbrev dumped : WorkerStatus
dumped = new_worker_status "t1" worker_dm_dump "w1" worker_finished

known : worker_seq mode_all ≡ some (worker_dm_dump ∷ worker_dm_load ∷ worker_dm_sync ∷ [])
unfolding worker_seq
known = refl

get_next_unit-successor_example :
    (get_next_unit (task_with "job" "t1" mode_all stage_running) dumped
      ≡ returns (
          if is_finished worker_finished
          then successor worker_dm_dump (worker_dm_dump ∷ worker_dm_load ∷ worker_dm_sync ∷ [])
          else worker_dm_dump))
    × (is_unit
          (if is_finished worker_finished
            then successor worker_dm_dump (worker_dm_dump ∷ worker_dm_load ∷ worker_dm_sync ∷ [])
            else worker_dm_dump)
          (worker_dm_dump ∷ worker_dm_load ∷ worker_dm_sync ∷ [])
        ≡ true)
get_next_unit-successor_example =
    get_next_unit-successor (task_with "job" "t1" mode_all stage_running) dumped
      (worker_dm_dump ∷ worker_dm_load ∷ worker_dm_sync ∷ []) known refl

-- Only the dump has a checkpoint.
abbrev dump_started : CheckpointAgent
dump_started unit task = fresh (if eqb unit worker_dm_dump then false else true)

get_current_unit-Resumes_example :
    Returns (get_current_unit dump_started (task_with "job" "t1" mode_all stage_running)) (
      Resumes dump_started
        (task_with "job" "t1" mode_all stage_running)
        (worker_dm_dump ∷ worker_dm_load ∷ worker_dm_sync ∷ []))
get_current_unit-Resumes_example =
    get_current_unit-Resumes dump_started (task_with "job" "t1" mode_all stage_running)
      worker_dm_dump (worker_dm_load ∷ worker_dm_sync ∷ []) known

-- The first of two requests receives the first of two responses, has the second accepted, and ends.
abbrev calls : List (Event String)
calls = ended 1 ∷ sent 1 "late" ∷ received 1 ∷ sent 1 "first" ∷ began ∷ began ∷ []

few : requests calls < 2 ^ 64
unfolding requests
few = omega arith

receive-answer_of_example :
    ((receive 1 (after calls)).1 ≡ response (answer_of 1 calls))
    × (load_response 1 (after calls)
        ≡ (if is_open 1 calls then none else some (request_not_found 1)))
    × ((send_response 1 "again" (after calls)).1 ≡ refusal 1 (answer_of 1 calls))
receive-answer_of_example = receive-answer_of 1 "again" calls few
