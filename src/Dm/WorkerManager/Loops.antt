-- ===== src/Dm/WorkerManager/Loops.antt =====
-- The loops of a check of the worker manager, over the workers and over the tasks.
use microcosm.Base.{
  ℕ, String, Bool, true, false, Option, none, some, [], ◌∷◌, ◌≡◌, refl, ap, ◌∙◌, sym, subst, All,
  Bool-cases, Map, IsMap, lookup, delete, has, is_some, lookup-delete, lookup-delete_self,
  delete-All, String_eq, ◌==◌, eq_iff, if◌then◌else◌, ◌⊎◌, inl, inr, arith, Returns, Returns-bind,
  Returns-mono,
}
use microcosm.Dm.Runtime.{Job, Task, WorkerStatus, is_offline, DmError}
use microcosm.Dm.WorkerManager.{
  WorkerAgent, CheckpointAgent, Loop, when_stopped, stop_worker, stop_unneeded_workers,
  schedule_task, check_and_schedule_workers,
}
use microcosm.Dm.WorkerManager.Turns.{
  IsFitting, NoneOffline, NamesWorkers, Turns, schedule_task-Turns, false≢true,
}

abbrev pub AllFitting : Job → Map String WorkerStatus → Type 0
AllFitting job m = All (λ entry. IsFitting entry.1 (lookup entry.0 m)) job

-- What the loop over the tasks does.
abbrev pub Schedules : {S : Type 0} → Job → Loop S → Loop S → Type 0
Schedules job l l' =
    AllFitting job l'.statuses
    × (l'.record_error ≡ none → All (λ entry. has entry.0 l'.statuses ≡ true) job)
    × ((j : String) → has j job ≡ false → lookup j l'.statuses ≡ lookup j l.statuses)
    × (l'.record_error ≡ none → l.record_error ≡ none)
    × (NoneOffline l.statuses → NoneOffline l'.statuses)

-- What the loop over the workers that are not needed does.
abbrev pub Stops : {S : Type 0} → Job → Map String WorkerStatus → Loop S → Loop S → Type 0
Stops job snapshot l l' =
    ((j : String) → has j job ≡ true → lookup j l'.statuses ≡ lookup j l.statuses)
    × (l'.record_error ≡ none
        → (l.record_error ≡ none)
          × All (λ entry. has entry.0 job ≡ false → lookup entry.0 l'.statuses ≡ none) snapshot)
    × ((j : String) → lookup j l.statuses ≡ none → lookup j l'.statuses ≡ none)
    × (NoneOffline l.statuses → NoneOffline l'.statuses)

-- A key that is not in a map is not one of its entries.
other_keys :
    (id : String) (job : Job) → lookup id job ≡ none → All (λ entry. (id == entry.0) ≡ false) job
unfolding lookup
other_keys id [] h = tt
other_keys id ((j, t) ∷ rest) h = elim (Bool-cases (j == id)) [
  | inl q ↦ absurd (ground (arith, q, h))
  | inr q ↦
      let later : lookup id rest ≡ none = ground (arith, q, h) in
      (ground (arith, q, eq_iff id j, eq_iff j id), other_keys id rest later)
]

pub lookup-tail :
    (id j : String) (t : Task) (rest : Job)
    → has j ((id, t) ∷ rest) ≡ false
    → ((id == j) ≡ false) × (has j rest ≡ false)
unfolding lookup
lookup-tail id j t rest h = elim (Bool-cases (id == j)) [
  | inl q ↦ absurd (ground (arith, q, h))
  | inr q ↦ (q, ground (arith, q, h))
]

fitting_elsewhere :
    (id : String) (a b : Map String WorkerStatus) (job : Job)
    → ((j : String) → (id == j) ≡ false → lookup j b ≡ lookup j a)
    → All (λ entry. (id == entry.0) ≡ false) job
    → AllFitting job a
    → AllFitting job b
fitting_elsewhere id a b [] same other h = tt
fitting_elsewhere id a b ((j, t) ∷ rest) same (n, ns) (h, hs) =
    (subst (IsFitting t) (sym (same j n)) h, fitting_elsewhere id a b rest same ns hs)

none_missing : (id : String) (job : Job) → lookup id job ≡ none → has id job ≡ false
none_missing id job q = ap is_some q

stopped_at :
    (id j : String) (m : Map String WorkerStatus)
    → (lookup j (delete id m) ≡ lookup j m) ⊎ (((id == j) ≡ true) × (lookup j (delete id m) ≡ none))
stopped_at id j m = elim (Bool-cases (id == j)) [
  | inl q ↦ inr (q, lookup-delete id j m ∙ ap (λ b. if b then none else lookup j m) q)
  | inr q ↦ inl (lookup-delete id j m ∙ ap (λ b. if b then none else lookup j m) q)
]

-- A worker that is not needed is stopped.
when_stopped-Stops :
    {S : Type 0} (job : Job) (id : String) (w : WorkerStatus) (l : Loop S) (r : S × Option DmError)
    → has id job ≡ false
    → Stops job ((id, w) ∷ []) l (when_stopped id l r)
when_stopped-Stops job id w l (s, some x) n = (λ j h. refl, λ e. absurd (cc), λ j h. h, λ h. h)
when_stopped-Stops job id w l (s, none) n = (
  λ j h. needed j h (stopped_at id j l.statuses),
  λ e. (e, (λ _. lookup-delete_self id l.statuses, tt)),
  λ j h. stays j h (stopped_at id j l.statuses),
  λ h. delete-All (λ entry. is_offline entry.1 ≡ false) id l.statuses h,
)
  where
    needed :
        (j : String)
        → has j job ≡ true
        → (lookup j (delete id l.statuses) ≡ lookup j l.statuses)
          ⊎ (((id == j) ≡ true) × (lookup j (delete id l.statuses) ≡ none))
        → lookup j (delete id l.statuses) ≡ lookup j l.statuses
    needed j h (inl same) = same
    needed j h (inr (q, _)) =
        absurd (false≢true (sym n ∙ ap (λ k. has k job) ((eq_iff id j).0 q) ∙ h))

    stays :
        (j : String)
        → lookup j l.statuses ≡ none
        → (lookup j (delete id l.statuses) ≡ lookup j l.statuses)
          ⊎ (((id == j) ≡ true) × (lookup j (delete id l.statuses) ≡ none))
        → lookup j (delete id l.statuses) ≡ none
    stays j h (inl same) = same ∙ h
    stays j h (inr (_, gone)) = gone

module _ {S : Type 0} (agent : WorkerAgent S) (names : NamesWorkers agent)
    (checkpoint : CheckpointAgent) (now : ℕ) where
  pub check_and_schedule_workers-Schedules :
      (job : Job) (l : Loop S)
      → IsMap job
      → AllFitting job l.statuses
      → Returns (check_and_schedule_workers agent checkpoint now job l) (Schedules job l)
  unfolding check_and_schedule_workers
  check_and_schedule_workers-Schedules [] l unique fits = (tt, λ e. tt, λ j n. refl, λ e. e, λ h. h)
  check_and_schedule_workers-Schedules ((id, t) ∷ rest) l (fresh_id, unique) (fit, fits) =
      Returns-bind (Turns id t l) (Schedules ((id, t) ∷ rest) l)
        (schedule_task agent checkpoint now id t (lookup id l.statuses) l)
        (check_and_schedule_workers agent checkpoint now rest)
        (schedule_task-Turns agent names checkpoint now id t l (lookup id l.statuses) refl fit)
        (λ mid turn.
          Returns-mono (Schedules rest mid) (Schedules ((id, t) ∷ rest) l)
            (check_and_schedule_workers agent checkpoint now rest mid)
            (check_and_schedule_workers-Schedules rest mid unique (
              fitting_elsewhere id l.statuses mid.statuses rest turn.2 (other_keys id rest fresh_id)
                fits))
            (λ l' later. both mid l' turn later))
    where
      both :
          (mid l' : Loop S)
          → Turns id t l mid
          → Schedules rest mid l'
          → Schedules ((id, t) ∷ rest) l l'
      both mid l' turn later =
          let kept = later.2 id (none_missing id rest fresh_id) in
          (
            (subst (IsFitting t) (sym kept) turn.0, later.0),
            λ e. (ap is_some kept ∙ turn.1 (later.3 e), later.1 e),
            λ j n.
                (let (other, gone) = lookup-tail id j t rest n in later.2 j gone ∙ turn.2 j other),
            λ e. turn.3 (later.3 e),
            λ h. later.4 (turn.4 h),
          )

  -- A turn of the loop over the workers.
  unneeded-Stops :
      (job : Job) (id : String) (w : WorkerStatus) (l : Loop S) (b : Bool)
      → has id job ≡ b
      → Stops job ((id, w) ∷ []) l (if b then l else stop_worker agent id w.id l)
  unfolding stop_worker
  unneeded-Stops job id w l true q =
      (λ j h. refl, λ e. (e, (λ n. absurd (false≢true (sym n ∙ q)), tt)), λ j h. h, λ h. h)
  unneeded-Stops job id w l false q =
      when_stopped-Stops job id w l (agent.stop id w.id l.agent_state) q

  pub stop_unneeded_workers-Stops :
      (job : Job) (snapshot : Map String WorkerStatus) (l : Loop S)
      → Stops job snapshot l (stop_unneeded_workers agent job snapshot l)
  unfolding stop_unneeded_workers
  stop_unneeded_workers-Stops job [] l = (λ j h. refl, λ e. (e, tt), λ j h. h, λ h. h)
  stop_unneeded_workers-Stops job ((id, w) ∷ rest) l =
      let mid = if has id job then l else stop_worker agent id w.id l in
      let first = unneeded-Stops job id w l (has id job) refl in
      let (needed, gone, stays, online) = stop_unneeded_workers-Stops job rest mid in
      (
        λ j h. needed j h ∙ first.0 j h,
        λ e. ((first.1 (gone e).0).0, (λ n. stays id ((first.1 (gone e).0).1.0 n), (gone e).1)),
        λ j h. stays j (first.2 j h),
        λ h. online (first.3 h),
      )
