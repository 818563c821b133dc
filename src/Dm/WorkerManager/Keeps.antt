-- ===== src/Dm/WorkerManager/Keeps.antt =====
-- What each turn of the worker manager's loops keeps, a check keeps.
use microcosm.Base.{
  ℕ, String, Bool, true, false, Option, none, some, List, [], ◌∷◌, Map, lookup, has, String_eq, eqb,
  ◌&&◌, if◌then◌else◌, if_of, Outcome, returns, panics, ◌>>=◌,
}
use microcosm.Dm.Runtime.{Job, Task, TaskCfg, WorkerStatus, run_as_expected, DmError}
use microcosm.Dm.Store.{Got, got, get_failed}
use microcosm.Dm.WorkerManager.{
  ResourceId, WorkerAgent, CheckpointAgent, Current, current, current_failed,
  remove_offline_workers, get_current_unit, get_next_unit, worker_idx_in_seq, resources_at, Loop,
  begin_loop, stop_worker, stop_all, stop_unneeded_workers, create_worker, launch, with_worker,
  at_current, schedule_task, check_and_schedule_workers, tick_impl,
}

-- Of the value that a call comes back with.
abbrev pub IfReturns : {A : Type 0} → (A → Type 0) → Outcome A → Type 0
IfReturns P (returns a) = P a
IfReturns P panics = Unit

pub IfReturns-bind :
    {A B : Type 0} (P : B → Type 0) (o : Outcome A) (f : A → Outcome B)
    → ((a : A) → IfReturns P (f a))
    → IfReturns P (o >>= f)
IfReturns-bind P (returns a) f h = h a
IfReturns-bind P panics f h = tt

pub IfReturns-then :
    {A B : Type 0} (Q : A → Type 0) (P : B → Type 0) (o : Outcome A) (f : A → Outcome B)
    → IfReturns Q o
    → ((a : A) → Q a → IfReturns P (f a))
    → IfReturns P (o >>= f)
IfReturns-then Q P (returns a) f q h = h a q
IfReturns-then Q P panics f q h = tt

module _ {S : Type 0} (agent : WorkerAgent S) (Inv : Loop S → Type 0)
    (stops : (id worker_id : String) (l : Loop S) → Inv l → Inv (stop_worker agent id worker_id l))
    (creates : (now : ℕ) (id : String) (unit : ℕ) (cfg : TaskCfg) (resources : List ResourceId)
        (l : Loop S)
      → Inv l
      → Inv (create_worker agent now id unit cfg resources l))
    (errs : (e : Option DmError) (l : Loop S) → Inv l → Inv (record l { record_error = e })) where
  stop_all-keeps : (m : Map String WorkerStatus) (l : Loop S) → Inv l → Inv (stop_all agent m l)
  unfolding stop_all
  stop_all-keeps [] l h = h
  stop_all-keeps ((id, w) ∷ rest) l h =
      stop_all-keeps rest (stop_worker agent id w.id l) (stops id w.id l h)

  stop_if :
      (b : Bool) (id worker_id : String) (l : Loop S)
      → Inv l
      → Inv (if b then l else stop_worker agent id worker_id l)
  stop_if true id worker_id l h = h
  stop_if false id worker_id l h = stops id worker_id l h

  stop_unneeded_workers-keeps :
      (job : Job) (m : Map String WorkerStatus) (l : Loop S)
      → Inv l
      → Inv (stop_unneeded_workers agent job m l)
  unfolding stop_unneeded_workers
  stop_unneeded_workers-keeps job [] l h = h
  stop_unneeded_workers-keeps job ((id, w) ∷ rest) l h =
      stop_unneeded_workers-keeps job rest (if has id job then l else stop_worker agent id w.id l)
        (stop_if (has id job) id w.id l h)

  launch-keeps :
      (now : ℕ) (id : String) (t : Task) (unit : ℕ) (l : Loop S)
      → Inv l
      → IfReturns Inv (launch agent now id t unit l)
  unfolding launch
  launch-keeps now id t unit l h =
      IfReturns-bind Inv (worker_idx_in_seq t.cfg.task_mode unit)
        (λ i. returns (create_worker agent now id unit t.cfg (resources_at t.cfg i) l))
        (λ i. creates now id unit t.cfg (resources_at t.cfg i) l h)

  with_worker-keeps :
      (now : ℕ) (id : String) (t : Task) (w : WorkerStatus) (l : Loop S)
      → Inv l
      → IfReturns Inv (with_worker agent now id t w l)
  with_worker-keeps now id t w l h =
      IfReturns-bind Inv (get_next_unit t w)
        (λ u. if run_as_expected w && eqb u w.unit then returns l else launch agent now id t u l)
        (λ u.
          if_of (IfReturns Inv) (run_as_expected w && eqb u w.unit) (returns l)
            (launch agent now id t u l) h (launch-keeps now id t u l h))

  at_current-keeps :
      (now : ℕ) (id : String) (t : Task) (l : Loop S) (c : Current)
      → Inv l
      → IfReturns Inv (at_current agent now id t l c)
  at_current-keeps now id t l (current u) h = launch-keeps now id t u l h
  at_current-keeps now id t l (current_failed e) h = errs (some e) l h

  schedule_task-keeps :
      (checkpoint : CheckpointAgent) (now : ℕ) (id : String) (t : Task) (o : Option WorkerStatus)
      (l : Loop S)
      → Inv l
      → IfReturns Inv (schedule_task agent checkpoint now id t o l)
  schedule_task-keeps checkpoint now id t (some w) l h = with_worker-keeps now id t w l h
  schedule_task-keeps checkpoint now id t none l h =
      IfReturns-bind Inv (get_current_unit checkpoint t) (at_current agent now id t l)
        (λ c. at_current-keeps now id t l c h)

  check_and_schedule_workers-keeps :
      (checkpoint : CheckpointAgent) (now : ℕ) (job : Job) (l : Loop S)
      → Inv l
      → IfReturns Inv (check_and_schedule_workers agent checkpoint now job l)
  unfolding check_and_schedule_workers
  check_and_schedule_workers-keeps checkpoint now [] l h = h
  check_and_schedule_workers-keeps checkpoint now ((id, t) ∷ rest) l h =
      IfReturns-then Inv Inv (schedule_task agent checkpoint now id t (lookup id l.statuses) l)
        (check_and_schedule_workers agent checkpoint now rest)
        (schedule_task-keeps checkpoint now id t (lookup id l.statuses) l h)
        (λ l' k. check_and_schedule_workers-keeps checkpoint now rest l' k)

  or_error-keeps :
      (e : DmError) (o : Option DmError) (l : Loop S)
      → Inv l
      → Inv (elim o [ none ↦ record l { record_error = some e } | some _ ↦ l ])
  or_error-keeps e none l h = errs (some e) l h
  or_error-keeps e (some _) l h = h

  -- A check that comes back keeps what holds once the statuses of offline workers are removed.
  pub tick_impl-keeps :
      (checkpoint : CheckpointAgent) (now : ℕ) (answer : Got) (m : Map String WorkerStatus) (s : S)
      → Inv (begin_loop s (remove_offline_workers now m))
      → IfReturns Inv (tick_impl agent checkpoint now answer m s)
  unfolding tick_impl
  tick_impl-keeps checkpoint now (get_failed e) m s h =
      let left = remove_offline_workers now m in
      let l = stop_all agent left (begin_loop s left) in
      or_error-keeps e l.record_error l (stop_all-keeps left (begin_loop s left) h)
  tick_impl-keeps checkpoint now (got job) m s h =
      let left = remove_offline_workers now m in
      check_and_schedule_workers-keeps checkpoint now job
        (stop_unneeded_workers agent job left (begin_loop s left))
        (stop_unneeded_workers-keeps job left (begin_loop s left) h)
