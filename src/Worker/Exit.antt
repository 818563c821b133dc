-- ===== src/Worker/Exit.antt =====
-- workerExitController and Poll of lib/worker.go. The error center is its first error. What the message
-- handlers, the router and the worker's Tick answer are parameters.
pub mod Ends
use microcosm.Base.{
  ℕ, ◌+◌, ◌*◌, ◌<◌, ◌≤◌, String, Bool, true, false, Option, none, some, List, [], ◌∷◌, ltb,
  if◌then◌else◌, ◌≡◌, ◌≢◌, refl, ◌⊎◌, inl, inr, arith, Option-cases, Bool-cases,
}
use microcosm.Worker.Timeouts.{second}

pub data WorkerError : Type 0 where
  worker_half_exit : WorkerError
  worker_suicide : String → WorkerError
  other_error : String → WorkerError

pub data ExitState : Type 0 where
  normal half_exit exited : ExitState

pub record ExitController : Type 0 where
  pub worker_exit_fsm : ExitState
  pub half_exit_time : ℕ
  pub err_center : Option WorkerError

unfoldable pub new_worker_exit_controller : ExitController
new_worker_exit_controller = record {
  worker_exit_fsm = normal;
  half_exit_time = 0;
  err_center = none;
}

unfoldable pub on_error : WorkerError → ExitController → ExitController
on_error e c = elim c.err_center [ none ↦ record c { err_center = some e } | some _ ↦ c ]

abbrev pub worker_exit_wait_for_master_timeout : ℕ
worker_exit_wait_for_master_timeout = 15 * second

-- The switch of PollExit, on the state that it loads.
unfoldable pub poll_state :
    ExitState → ℕ → Bool → WorkerError → ExitController → ExitController × Option WorkerError
poll_state normal now closed err c =
    (record c { worker_exit_fsm = half_exit; half_exit_time = now }, some worker_half_exit)
poll_state half_exit now closed err c =
    if closed
    then (record c { worker_exit_fsm = exited }, some err)
    else if ltb (c.half_exit_time + worker_exit_wait_for_master_timeout) now
    then (c, some err)
    else (c, some worker_half_exit)
poll_state exited now closed err c = (c, some err)

-- `closed` is IsMasterSideClosed.
unfoldable pub poll_exit : ℕ → Bool → ExitController → ExitController × Option WorkerError
poll_exit now closed c = elim c.err_center [
  | none ↦ (c, none)
  | some err ↦ poll_state c.worker_exit_fsm now closed err c
]

unfoldable pub force_exit : WorkerError → ExitController → ExitController
force_exit e c = record (on_error e c) { worker_exit_fsm = exited }

unfoldable pub is_exiting : ExitController → Bool
is_exiting c = elim c.worker_exit_fsm [ half_exit ↦ true | _ ↦ false ]

abbrev pub or_else : Option WorkerError → Option WorkerError → Option WorkerError
or_else (some e) other = some e
or_else none other = other

-- What a Poll meets: the clock, the master's acknowledgement, and the errors of the message handlers, of
-- the router, and of the worker's own Tick.
pub record Round : Type 0 where
  pub now : ℕ
  pub master_closed : Bool
  pub handlers : Option WorkerError
  pub router : Option WorkerError
  pub impl_tick : Option WorkerError

unfoldable pub do_poll : Round → ExitController → ExitController × Option WorkerError
do_poll r c =
    let (c', e) = poll_exit r.now r.master_closed c in (c', or_else e (or_else r.handlers r.router))

abbrev pub tick_result : Option WorkerError → ExitController → ExitController × Option WorkerError
tick_result none c = (c, none)
tick_result (some e) c = (on_error e c, none)

-- The worker's Tick runs only if doPoll gives no error; the half exit is not reported.
abbrev pub polled :
    Round → ExitController × Option WorkerError → ExitController × Option WorkerError
polled r (c, none) = tick_result r.impl_tick c
polled r (c, some worker_half_exit) = (c, none)
polled r (c, some e) = (c, some e)

unfoldable pub poll : Round → ExitController → ExitController × Option WorkerError
poll r c = polled r (do_poll r c)

unfoldable pub run : List Round → ExitController → ExitController
run [] c = c
run (r ∷ rs) c = run rs (poll r c).0
