-- ===== src/Dm/WorkerManager/Turns.antt =====
-- What one turn of the loops of the worker manager does to the statuses.
use microcosm.Base.{
  ℕ, String, true, false, ◌&&◌, Option, none, some, List, [], ◌∷◌, ◌++◌, ◌≡◌, refl, ap, ◌∙◌, sym,
  subst, All, eqb, Bool-cases, Map, lookup, has, is_some, lookup-insert, lookup-insert_self,
  insert-All, String_eq, ◌==◌, if◌then◌else◌, if_of, inl, inr, arith, Outcome, returns, Returns,
  Returns-bind, ◌>>=◌,
}
use microcosm.Dm.Runtime.{
  Task, TaskMode, mode_all, mode_full, mode_increment, other_mode, TaskCfg, WorkerStatus,
  is_finished, is_offline, run_as_expected, init_worker_status, DmError, last_error,
}
use microcosm.Dm.WorkerManager.{
  ResourceId, WorkerAgent, CheckpointAgent, update_worker_status, worker_seq, Current, current,
  current_failed, get_current_unit, Loop, create_worker, resources_at, launch, with_worker,
  at_current, schedule_task,
}
use microcosm.Dm.WorkerManager.Units.{
  is_unit, get_next_unit-successor, successor, worker_idx_in_seq_lem, Resumes,
  get_current_unit-Resumes,
}

-- The task's mode has units, and its worker, if there is one, runs one of them.
abbrev pub IsFitting : Task → Option WorkerStatus → Type 0
IsFitting t none = (seq : List ℕ) × (worker_seq t.cfg.task_mode ≡ some seq)
IsFitting t (some w) =
    (seq : List ℕ) × (worker_seq t.cfg.task_mode ≡ some seq) × (is_unit w.unit seq ≡ true)

abbrev pub NoneOffline : Map String WorkerStatus → Type 0
NoneOffline m = All (λ entry. is_offline entry.1 ≡ false) m

-- CreateWorker answers a worker's id whenever it has no error.
abbrev pub NamesWorkers : {S : Type 0} → WorkerAgent S → Type 0
NamesWorkers {S} agent =
    (task_id : String) (unit : ℕ) (cfg : TaskCfg) (resources : List ResourceId) (s : S)
    → (agent.create task_id unit cfg resources s).2 ≡ none
    → ((agent.create task_id unit cfg resources s).1 == "") ≡ false

-- A turn for one task: only its own status changes.
abbrev pub Turns : {S : Type 0} → String → Task → Loop S → Loop S → Type 0
Turns id t l l' =
    IsFitting t (lookup id l'.statuses)
    × (l'.record_error ≡ none → has id l'.statuses ≡ true)
    × ((j : String) → (id == j) ≡ false → lookup j l'.statuses ≡ lookup j l.statuses)
    × (l'.record_error ≡ none → l.record_error ≡ none)
    × (NoneOffline l.statuses → NoneOffline l'.statuses)

pub false≢true : false ≡ true → ⊥
false≢true h = cc

last_error-none :
    (before e : Option DmError) → last_error before e ≡ none → (before ≡ none) × (e ≡ none)
last_error-none before none h = (h, refl)
last_error-none before (some e) h = absurd (cc)

online :
    (now : ℕ) (id : String) (unit : ℕ) (worker_id : String)
    → is_offline (init_worker_status now id unit worker_id) ≡ false
unfolding is_offline
online now id unit worker_id = refl

seq_not_nil : (mode : TaskMode) → worker_seq mode ≡ some [] → ⊥
unfolding worker_seq
seq_not_nil mode_all h = cc
seq_not_nil mode_full h = cc
seq_not_nil mode_increment h = cc
seq_not_nil (other_mode _) h = cc

is_unit-append : (u : ℕ) (before after : List ℕ) → is_unit u (before ++ u ∷ after) ≡ true
is_unit-append u [] after = ground arith
is_unit-append u (x ∷ xs) after = ground (arith, is_unit-append u xs after)

module _ {S : Type 0} (agent : WorkerAgent S) (names : NamesWorkers agent) where
  create_worker-Turns :
      (now : ℕ) (id : String) (t : Task) (unit : ℕ) (resources : List ResourceId) (l : Loop S)
      (seq : List ℕ)
      → worker_seq t.cfg.task_mode ≡ some seq
      → is_unit unit seq ≡ true
      → IsFitting t (lookup id l.statuses)
      → Turns id t l (create_worker agent now id unit t.cfg resources l)
  unfolding create_worker update_worker_status
  create_worker-Turns now id t unit resources l seq known here fits =
      let made = agent.create id unit t.cfg resources l.agent_state in
      let named = names id unit t.cfg resources l.agent_state in
      let w = init_worker_status now id unit made.1 in
      elim (Bool-cases (made.1 == "")) [
        | inl q ↦ rw q (
          fits,
          λ e. absurd (false≢true (sym (named (last_error-none l.record_error made.2 e).1) ∙ q)),
          λ j n. refl,
          λ e. (last_error-none l.record_error made.2 e).0,
          λ h. h,
        )
        | inr q ↦ rw q (
          subst (IsFitting t) (sym (lookup-insert_self id w l.statuses)) (seq, known, here),
          λ e. ap is_some (lookup-insert_self id w l.statuses),
          λ j n.
              lookup-insert id j w l.statuses
              ∙ ap (λ b. if b then some w else lookup j l.statuses) n,
          λ e. (last_error-none l.record_error made.2 e).0,
          λ h.
              insert-All (λ entry. is_offline entry.1 ≡ false) id w l.statuses
                (online now id unit made.1) h,
        )
      ]

  launch-Turns :
      (now : ℕ) (id : String) (t : Task) (unit : ℕ) (l : Loop S) (seq : List ℕ)
      → worker_seq t.cfg.task_mode ≡ some seq
      → is_unit unit seq ≡ true
      → IsFitting t (lookup id l.statuses)
      → Returns (launch agent now id t unit l) (Turns id t l)
  unfolding launch
  launch-Turns now id t unit l seq known here fits =
      let (d, at) = worker_idx_in_seq_lem t.cfg.task_mode unit seq known here in
      subst
        (λ o.
          Returns
            (o >>= λ i. returns (create_worker agent now id unit t.cfg (resources_at t.cfg i) l))
            (Turns id t l))
        (sym at) (create_worker-Turns now id t unit (resources_at t.cfg d) l seq known here fits)

  -- Nothing is done for the task.
  stays-Turns :
      (id : String) (t : Task) (l : Loop S)
      → IsFitting t (lookup id l.statuses)
      → has id l.statuses ≡ true
      → Turns id t l l
  stays-Turns id t l fits there = (fits, λ e. there, λ j n. refl, λ e. e, λ h. h)

  with_worker-Turns :
      (now : ℕ) (id : String) (t : Task) (w : WorkerStatus) (l : Loop S)
      → lookup id l.statuses ≡ some w
      → IsFitting t (some w)
      → Returns (with_worker agent now id t w l) (Turns id t l)
  with_worker-Turns now id t w l q (seq, known, here) =
      let fits = subst (IsFitting t) (sym q) (seq, known, here) in
      let (next, is) = get_next_unit-successor t w seq known here in
      let unit = if is_finished w.stage then successor w.unit seq else w.unit in
      let go : ℕ → Outcome (Loop S) =
        λ u. if run_as_expected w && eqb u w.unit then returns l else launch agent now id t u l in
      subst (λ o. Returns (o >>= go) (Turns id t l)) (sym next)
        (if_of (λ o. Returns o (Turns id t l)) (run_as_expected w && eqb unit w.unit) (returns l)
          (launch agent now id t unit l) (stays-Turns id t l fits (ap is_some q))
          (launch-Turns now id t unit l seq known is fits))

  at_current-Turns :
      (checkpoint : CheckpointAgent) (now : ℕ) (id : String) (t : Task) (l : Loop S) (seq : List ℕ)
      → worker_seq t.cfg.task_mode ≡ some seq
      → lookup id l.statuses ≡ none
      → (c : Current) → Resumes checkpoint t seq c
      → Returns (at_current agent now id t l c) (Turns id t l)
  at_current-Turns checkpoint now id t l seq known q (current u) (before, after, split, _, _) =
      launch-Turns now id t u l seq known
        (subst (λ s. is_unit u s ≡ true) (sym split) (is_unit-append u before after))
        (subst (IsFitting t) (sym q) (seq, known))
  at_current-Turns checkpoint now id t l seq known q (current_failed e) h = (
    subst (IsFitting t) (sym q) (seq, known),
    λ x. absurd (cc),
    λ j n. refl,
    λ x. absurd (cc),
    λ x. x,
  )

  pub schedule_task-Turns :
      (checkpoint : CheckpointAgent) (now : ℕ) (id : String) (t : Task) (l : Loop S)
      (running : Option WorkerStatus)
      → lookup id l.statuses ≡ running
      → IsFitting t running
      → Returns (schedule_task agent checkpoint now id t running l) (Turns id t l)
  schedule_task-Turns checkpoint now id t l (some w) q fits = with_worker-Turns now id t w l q fits
  schedule_task-Turns checkpoint now id t l none q (seq, known) = at_seq seq known
    where
      at_seq :
          (xs : List ℕ)
          → worker_seq t.cfg.task_mode ≡ some xs
          → Returns (get_current_unit checkpoint t >>= at_current agent now id t l) (Turns id t l)
      at_seq [] known' = absurd (seq_not_nil t.cfg.task_mode known')
      at_seq (u ∷ rest) known' =
          Returns-bind (Resumes checkpoint t (u ∷ rest)) (Turns id t l)
            (get_current_unit checkpoint t) (at_current agent now id t l)
            (get_current_unit-Resumes checkpoint t u rest known')
            (at_current-Turns checkpoint now id t l (u ∷ rest) known' q)
