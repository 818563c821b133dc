-- ===== src/Executor/TaskRunner/Run.antt =====
-- Any sequence of what happens to a task runner.
use microcosm.Base.{
  ℕ, ◌≤◌, String, Bool, true, false, All, List, [], ◌∷◌, length, Outcome, returns, ◌>>=◌, Returns,
  Returns-bind, ◌≡◌, refl, arith,
}
use microcosm.Executor.TaskRunner.{
  TaskRunner, new_task_runner, add_wrapped_task, on_new_task, run_once, init_ends, event_loop_ends,
  close_task, delete_task, leave, cancel_all,
}
use microcosm.Executor.TaskRunner.Sound.{
  IsSound, new_task_runner-IsSound, queue-IsSound, add_wrapped_task-IsSound, on_new_task-IsSound,
  init_ends-IsSound, event_loop_ends-IsSound, close_task-IsSound, delete_task-IsSound,
  leave-IsSound, cancel_all-IsSound,
}

-- A task comes in, Run takes one, Init or EventLoop of a task ends, a task closes, it is taken off the
-- map, its goroutine leaves, or Run ends; Poll and Close may panic.
pub data Event : Type 0 where
  adds : String → Event
  takes leaves cancels : Event
  inits : String → Bool → Event
  loops closes : String → Bool → Event
  deletes : String → Event

unfoldable pub happen : Event → TaskRunner → Outcome TaskRunner
happen (adds id) r = returns (add_wrapped_task id r).0
happen takes r = returns (run_once r)
happen leaves r = returns (leave r)
happen cancels r = returns (cancel_all r)
happen (inits id ok) r = returns (init_ends id ok r)
happen (loops id poll_panics) r = event_loop_ends id poll_panics r
happen (closes id close_panics) r = close_task id close_panics r
happen (deletes id) r = delete_task id r

unfoldable pub happen_all : List Event → TaskRunner → Outcome TaskRunner
happen_all [] r = returns r
happen_all (e ∷ es) r = happen e r >>= happen_all es

run_once-IsSound : (n : ℕ) (r : TaskRunner) → IsSound n r → IsSound n (run_once r)
unfolding run_once
run_once-IsSound n r v = by_queue r.in_queue refl
  where
    by_queue :
        (q : List String)
        → r.in_queue ≡ q
        → IsSound n
            (elim q [ [] ↦ r | id ∷ rest ↦ (on_new_task id (record r { in_queue = rest })).0 ])
    by_queue [] e = v
    by_queue (id ∷ rest) e =
        let bound = v.bounded in
        let short : length rest ≤ r.in_queue_size = ground (arith, bound, e) in
        on_new_task-IsSound n (record r { in_queue = rest }) (queue-IsSound n r v rest short) id

-- Whether the step is a panic of a task's own Poll or Close.
abbrev pub task_panics : Event → Bool
task_panics (loops id poll_panics) = poll_panics
task_panics (closes id close_panics) = close_panics
task_panics _ = false

happen-IsSound :
    (n : ℕ) (e : Event) (r : TaskRunner)
    → task_panics e ≡ false
    → IsSound n r
    → Returns (happen e r) (IsSound n)
unfolding happen
happen-IsSound n (adds id) r q v = add_wrapped_task-IsSound n r v id
happen-IsSound n takes r q v = run_once-IsSound n r v
happen-IsSound n leaves r q v = leave-IsSound n r v
happen-IsSound n cancels r q v = cancel_all-IsSound n r v
happen-IsSound n (inits id ok) r q v = init_ends-IsSound n r v id ok
happen-IsSound n (loops id false) r q v = event_loop_ends-IsSound n r v id
happen-IsSound n (loops id true) r q v = absurd (cc)
happen-IsSound n (closes id false) r q v = close_task-IsSound n r v id
happen-IsSound n (closes id true) r q v = absurd (cc)
happen-IsSound n (deletes id) r q v = delete_task-IsSound n r v id

happen_all-IsSound :
    (n : ℕ) (es : List Event) (r : TaskRunner)
    → All (λ e. task_panics e ≡ false) es
    → IsSound n r
    → Returns (happen_all es r) (IsSound n)
unfolding happen_all
happen_all-IsSound n [] r h v = v
happen_all-IsSound n (e ∷ es) r h v =
    Returns-bind (IsSound n) (IsSound n) (happen e r) (happen_all es) (happen-IsSound n e r h.0 v)
      (λ r' v'. happen_all-IsSound n es r' h.1 v')

-- From a new task runner on, whatever comes in and however the tasks end, as long as no Poll and no Close of
-- a task panics: nothing panics, neither OnStopped nor the deletion of a task from the map, and afterwards
-- the free quota and the tasks in Init make up the initial concurrency, the count of tasks is that of
-- the tasks in the map and of the goroutines that still have to count themselves off, a task's status
-- tells how far it is, the goroutines past OnStopped are those of the stopped tasks in the map, the queue
-- keeps its bound, and once the runner is cancelled every task is.
pub new_runner-IsSound :
    (in_queue_size init_concurrency : ℕ) (es : List Event)
    → All (λ e. task_panics e ≡ false) es
    → Returns
        (happen_all es (new_task_runner in_queue_size init_concurrency))
        (IsSound init_concurrency)
new_runner-IsSound size n es h =
    happen_all-IsSound n es (new_task_runner size n) h (new_task_runner-IsSound size n)
