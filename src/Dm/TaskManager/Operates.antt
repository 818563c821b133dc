-- ===== src/Dm/TaskManager/Operates.antt =====
-- What a check of the task manager does to the tasks.
use microcosm.Base.{
  String, Bool, true, false, not, ◌&&◌, Option, none, some, List, [], ◌∷◌, ◌≡◌, refl, ap, ◌∙◌,
  subst, sym, Map, All, lookup, has, String_eq, ◌==◌, eq_iff, Bool-cases, Option-cases,
  if◌then◌else◌, inl, inr, arith, keys-has, All-mono,
}
use microcosm.Dm.Runtime.{
  Job, Task, TaskStage, stage_init, stage_running, stage_paused, stage_finished, stage_unscheduled,
  same_stage, TaskStatus, DmError,
}
use microcosm.Dm.Store.{got}
use microcosm.Dm.TaskManager.{
  remove_task_status, task_as_expected, check_task, check_and_operate_tasks, tick_impl,
}

-- Are they the same stage?
abbrev pub is_stage : TaskStage → TaskStage → Bool
is_stage stage_init stage_init = true
is_stage stage_running stage_running = true
is_stage stage_paused stage_paused = true
is_stage stage_finished stage_finished = true
is_stage stage_unscheduled stage_unscheduled = true
is_stage _ _ = false

same_stage_lem : (a b : TaskStage) → same_stage a b ≡ is_stage a b
same_stage_lem a b = ground arith

-- A task that runs, with a status that a worker has reported.
abbrev pub is_scheduled : Option TaskStatus → Bool
is_scheduled none = false
is_scheduled (some s) = not (is_stage s.stage stage_unscheduled)

-- A scheduled task whose stage is not the one of the job.
abbrev pub deviates : Task → Option TaskStatus → Bool
deviates t none = false
deviates t (some s) = not (is_stage s.stage stage_unscheduled) && not (is_stage t.stage s.stage)

-- The tasks that deviate, in the job's order, with the stages that they should have.
unfoldable pub deviating : Job → Map String TaskStatus → List (String × TaskStage)
deviating [] m = []
deviating ((id, t) ∷ rest) m =
    let later = deviating rest m in
    if deviates t (lookup id m) then (id, t.stage) ∷ later else later

module _ {S : Type 0} (operate : S → String → TaskStage → S × Option DmError) where
  -- One OperateTask for each, whatever the others answer.
  unfoldable pub operate_all : List (String × TaskStage) → S → S
  operate_all [] s = s
  operate_all ((id, stage) ∷ rest) s = operate_all rest (operate s id stage).0

  operated :
      (id : String) (t : Task) (running : Option TaskStatus) (s : S) (e : Option DmError)
      → (check_task operate id t running s e).0
        ≡ (if deviates t running then (operate s id t.stage).0 else s)
  unfolding task_as_expected
  operated id t none s e = refl
  operated id t (some running) s e = elim (Option-cases (operate s id t.stage).1) [
    | inl q ↦ ground (
      arith,
      q,
      same_stage_lem running.stage stage_unscheduled,
      same_stage_lem t.stage running.stage,
    )
    | inr (y, q) ↦ ground (
      arith,
      q,
      same_stage_lem running.stage stage_unscheduled,
      same_stage_lem t.stage running.stage,
    )
  ]

  no_error :
      (id : String) (t : Task) (running : Option TaskStatus) (s : S) (e : Option DmError)
      → (check_task operate id t running s e).1 ≡ none
      → (e ≡ none) × (is_scheduled running ≡ true)
  unfolding task_as_expected
  no_error id t none s e h = absurd (cc)
  no_error id t (some running) s e h = elim (Option-cases (operate s id t.stage).1) [
    | inl q ↦ ground (
      arith,
      q,
      h,
      same_stage_lem running.stage stage_unscheduled,
      same_stage_lem t.stage running.stage,
    )
    | inr (y, q) ↦ ground (
      arith,
      q,
      h,
      same_stage_lem running.stage stage_unscheduled,
      same_stage_lem t.stage running.stage,
    )
  ]

  check_and_operate_tasks-operate_all :
      (job : Job) (m : Map String TaskStatus) (s : S) (e : Option DmError)
      → (check_and_operate_tasks operate job m s e).0 ≡ operate_all (deviating job m) s
  unfolding check_and_operate_tasks operate_all deviating
  check_and_operate_tasks-operate_all [] m s e = refl
  check_and_operate_tasks-operate_all ((id, t) ∷ rest) m s e =
      let r = check_task operate id t (lookup id m) s e in
      let ih = check_and_operate_tasks-operate_all rest m r.0 r.1 in
      let first = operated id t (lookup id m) s e in
      elim (Bool-cases (deviates t (lookup id m))) [
        | inl q ↦ rw q (
            ih
            ∙ ap (operate_all (deviating rest m))
                (subst (λ b. r.0 ≡ (if b then (operate s id t.stage).0 else s)) q first))
        | inr q ↦ rw q (
            ih
            ∙ ap (operate_all (deviating rest m))
                (subst (λ b. r.0 ≡ (if b then (operate s id t.stage).0 else s)) q first))
      ]

  check_and_operate_tasks_no_error :
      (job : Job) (m : Map String TaskStatus) (s : S) (e : Option DmError)
      → (check_and_operate_tasks operate job m s e).1 ≡ none
      → (e ≡ none) × All (λ entry. is_scheduled (lookup entry.0 m) ≡ true) job
  unfolding check_and_operate_tasks
  check_and_operate_tasks_no_error [] m s e h = (h, tt)
  check_and_operate_tasks_no_error ((id, t) ∷ rest) m s e h =
      let r = check_task operate id t (lookup id m) s e in
      let ih = check_and_operate_tasks_no_error rest m r.0 r.1 h in
      let here = no_error id t (lookup id m) s e ih.0 in (here.0, (here.1, ih.1))

lookup-remove_task_status :
    (job : Job) (id : String) (m : Map String TaskStatus)
    → lookup id (remove_task_status job m) ≡ (if has id job then lookup id m else none)
unfolding remove_task_status lookup
lookup-remove_task_status job id [] = ground arith
lookup-remove_task_status job id ((j, s) ∷ m) =
    let ih = lookup-remove_task_status job id m in
    elim (Bool-cases (j == id)) [
      | inl q ↦
          let same = (eq_iff j id).0 q in
          subst
            (λ k.
              lookup id (remove_task_status job ((k, s) ∷ m))
              ≡ (if has id job then lookup id ((k, s) ∷ m) else none))
            (sym same) (ground (arith, ih, eq_iff id id))
      | inr q ↦ ground (arith, q, ih)
    ]

-- Only the statuses of the job's tasks are read.
deviating_local :
    (job : Job) (a b : Map String TaskStatus)
    → All (λ entry. lookup entry.0 a ≡ lookup entry.0 b) job
    → deviating job a ≡ deviating job b
unfolding deviating
deviating_local [] a b h = refl
deviating_local ((id, t) ∷ rest) a b (h, hs) =
    let ih = deviating_local rest a b hs in
    ap (λ o. if deviates t o then (id, t.stage) ∷ deviating rest a else deviating rest a) h
    ∙ ap (λ l. if deviates t (lookup id b) then (id, t.stage) ∷ l else l) ih

kept_at_tasks :
    (job : Job) (m : Map String TaskStatus)
    → All (λ entry. lookup entry.0 (remove_task_status job m) ≡ lookup entry.0 m) job
kept_at_tasks job m =
    All-mono job
      (λ entry h.
        lookup-remove_task_status job entry.0 m ∙ ap (λ b. if b then lookup entry.0 m else none) h)
      (keys-has job)

module _ {S : Type 0} (operate : S → String → TaskStage → S × Option DmError) where
  -- A check of the task manager on a job: the statuses left are those of the job's tasks; the agent has
  -- been asked, once each and in the job's order, to bring exactly the tasks whose reported stage is not
  -- the one of the job to that stage, whatever it answered for the others; and if the check has no error
  -- every task of the job has a status that a worker reported.
  pub tick_impl-operate_all :
      (job : Job) (m : Map String TaskStatus) (s : S)
      → ((id : String)
          → lookup id (tick_impl operate (got job) m s).0
            ≡ (if has id job then lookup id m else none))
        × ((tick_impl operate (got job) m s).1 ≡ operate_all operate (deviating job m) s)
        × ((tick_impl operate (got job) m s).2 ≡ none
            → All (λ entry. is_scheduled (lookup entry.0 m) ≡ true) job)
  unfolding tick_impl
  tick_impl-operate_all job m s =
      let kept = remove_task_status job m in
      let same = kept_at_tasks job m in
      (
        λ id. lookup-remove_task_status job id m,
        check_and_operate_tasks-operate_all operate job kept s none
            ∙ ap (λ l. operate_all operate l s) (deviating_local job kept m same),
        λ h. scheduled job same (check_and_operate_tasks_no_error operate job kept s none h).1,
      )
    where
      scheduled :
          (js : Job)
          → All (λ entry. lookup entry.0 (remove_task_status job m) ≡ lookup entry.0 m) js
          → All (λ entry. is_scheduled (lookup entry.0 (remove_task_status job m)) ≡ true) js
          → All (λ entry. is_scheduled (lookup entry.0 m) ≡ true) js
      scheduled [] h k = tt
      scheduled (j ∷ js) (h, hs) (k, ks) = (ap is_scheduled (sym h) ∙ k, scheduled js hs ks)
