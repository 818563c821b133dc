-- ===== src/Executor/TaskRunner/Tests.antt =====
-- A run of the task runner.
use microcosm.Base.{true, false, List, [], ◌∷◌, Returns, refl}
use microcosm.Executor.TaskRunner.{new_task_runner}
use microcosm.Executor.TaskRunner.Sound.{IsSound}
use microcosm.Executor.TaskRunner.Run.{
  Event, adds, takes, inits, loops, closes, deletes, leaves, cancels, happen_all,
  new_runner-IsSound,
}

-- Two tasks, one of which fails in Init.
abbrev events : List Event
events =
    adds "a"
    ∷ adds "b"
    ∷ takes
    ∷ takes
    ∷ inits "a" true
    ∷ inits "b" false
    ∷ closes "b" false
    ∷ deletes "b"
    ∷ leaves
    ∷ cancels
    ∷ loops "a" false
    ∷ closes "a" false
    ∷ deletes "a"
    ∷ leaves
    ∷ []

new_runner-IsSound_example : Returns (happen_all events (new_task_runner 2 2)) (IsSound 2)
new_runner-IsSound_example = new_runner-IsSound 2 2 events (
  refl,
  (
    refl,
    (
      refl,
      (refl, (refl, (refl, (refl, (refl, (refl, (refl, (refl, (refl, (refl, (refl, tt))))))))))),
    ),
  ),
)
