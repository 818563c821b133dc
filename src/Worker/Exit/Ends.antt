-- ===== src/Worker/Exit/Ends.antt =====
-- A worker with an error gets out.
use microcosm.Base.{ℕ, ◌+◌, ◌<◌, true, none, some, List, [], ◌∷◌, ◌≡◌, ◌≢◌, ◌⊎◌, arith}
use microcosm.Worker.Exit.{
  WorkerError, worker_half_exit, ExitController, normal, half_exit, exited, on_error,
  worker_exit_wait_for_master_timeout, poll_state, poll_exit, force_exit, do_poll, poll, Round, run,
}

-- On its way out, with its first error, since the time `t`.
abbrev pub IsLeaving : WorkerError → ℕ → ExitController → Type 0
IsLeaving e t c =
    (c.err_center ≡ some e)
    × (((c.worker_exit_fsm ≡ half_exit) × (c.half_exit_time ≡ t)) ⊎ (c.worker_exit_fsm ≡ exited))

poll-IsLeaving :
    (e : WorkerError) (t : ℕ) (r : Round) (c : ExitController)
    → IsLeaving e t c
    → IsLeaving e t (poll r c).0
unfolding poll do_poll poll_exit poll_state on_error
poll-IsLeaving e t r c h = ground arith

run-IsLeaving :
    (e : WorkerError) (t : ℕ) (rs : List Round) (c : ExitController)
    → IsLeaving e t c
    → IsLeaving e t (run rs c)
unfolding run
run-IsLeaving e t [] c h = h
run-IsLeaving e t (r ∷ rs) c h = run-IsLeaving e t rs (poll r c).0 (poll-IsLeaving e t r c h)

-- The Poll that starts the exit.
start-IsLeaving :
    (e : WorkerError) (r : Round) (c : ExitController)
    → c.err_center ≡ some e
    → c.worker_exit_fsm ≡ normal
    → (IsLeaving e r.now (poll r c).0) × ((poll r c).1 ≡ none)
unfolding poll do_poll poll_exit poll_state
start-IsLeaving e r c q n = ground arith

last_poll :
    (e : WorkerError) (t : ℕ) (r : Round) (c : ExitController)
    → e ≢ worker_half_exit
    → IsLeaving e t c
    → (r.master_closed ≡ true) ⊎ (t + worker_exit_wait_for_master_timeout < r.now)
    → (poll r c).1 ≡ some e
unfolding poll do_poll poll_exit poll_state
last_poll e t r c ne h d = ground arith

-- A worker with an error other than the half exit starts to leave at its next Poll, without reporting
-- it, and whatever happens in the Polls that follow, a Poll that comes after the master's
-- acknowledgement, or more than fifteen seconds later, gives the worker's first error.
pub poll_ends :
    (e : WorkerError) (start r : Round) (between : List Round) (c : ExitController)
    → e ≢ worker_half_exit
    → c.err_center ≡ some e
    → c.worker_exit_fsm ≡ normal
    → (r.master_closed ≡ true) ⊎ (start.now + worker_exit_wait_for_master_timeout < r.now)
    → ((poll start c).1 ≡ none) × ((poll r (run between (poll start c).0)).1 ≡ some e)
poll_ends e start r between c ne q n d =
    let (leaving, quiet) = start-IsLeaving e start c q n in
    (quiet, last_poll e start.now r _ ne (run-IsLeaving e start.now between _ leaving) d)

-- After ForceExit on a worker without an error the next Poll gives the error of ForceExit.
pub force_exit_ends :
    (e : WorkerError) (r : Round) (c : ExitController)
    → e ≢ worker_half_exit
    → c.err_center ≡ none
    → (poll r (force_exit e c)).1 ≡ some e
unfolding force_exit on_error poll do_poll poll_exit poll_state
force_exit_ends e r c ne q = ground arith
