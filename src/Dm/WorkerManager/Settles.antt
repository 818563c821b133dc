-- ===== src/Dm/WorkerManager/Settles.antt =====
-- A check of the worker manager, for all tasks of a job.
use microcosm.Base.{
  ℕ, String, Bool, true, false, ◌||◌, Option, none, some, [], ◌∷◌, ◌≡◌, refl, ap, ◌∙◌, sym, subst,
  All, All-mono, Bool-cases, Map, IsMap, lookup, has, is_some, keys-has, lookup-All, String_eq,
  ◌==◌, eq_iff, if◌then◌else◌, ◌⊎◌, inl, inr, arith, Returns, Returns-mono,
}
use microcosm.Dm.Runtime.{Job, Task, WorkerStatus, is_offline, create_failed}
use microcosm.Dm.Store.{got}
use microcosm.Dm.WorkerManager.{
  WorkerAgent, CheckpointAgent, remove_offline_workers, Loop, stop_unneeded_workers,
  check_and_schedule_workers, begin_loop, tick_impl,
}
use microcosm.Dm.WorkerManager.Turns.{IsFitting, NoneOffline, NamesWorkers, false≢true}
use microcosm.Dm.WorkerManager.Loops.{
  AllFitting, Schedules, Stops, check_and_schedule_workers-Schedules, stop_unneeded_workers-Stops,
}

pub kept_or_gone :
    (now : ℕ) (m : Map String WorkerStatus) (id : String)
    → IsMap m
    → (lookup id (remove_offline_workers now m) ≡ lookup id m)
      ⊎ (lookup id (remove_offline_workers now m) ≡ none)
unfolding remove_offline_workers lookup
kept_or_gone now [] id h = inl refl
kept_or_gone now ((j, w) ∷ m) id (missing, h) = elim (Bool-cases (j == id)) [
  | inl q ↦ elim (Bool-cases (is_offline w || create_failed now w)) [
    | inr k ↦ inl (rw (k, q) refl)
    | inl k ↦
        let there : lookup id m ≡ none =
          subst (λ x. lookup x m ≡ none) ((eq_iff j id).0 q) missing in
        inr (rw k (gone there (kept_or_gone now m id h)))
  ]
  | inr q ↦ by_test (is_offline w || create_failed now w) q (kept_or_gone now m id h)
]
  where
    gone : {a b : Option WorkerStatus} → b ≡ none → (a ≡ b) ⊎ (a ≡ none) → a ≡ none
    gone there (inl same) = same ∙ there
    gone there (inr q) = q

    by_test :
        (b : Bool)
        → (j == id) ≡ false
        → (lookup id (remove_offline_workers now m) ≡ lookup id m)
          ⊎ (lookup id (remove_offline_workers now m) ≡ none)
        → (lookup id
              (if b then remove_offline_workers now m else (j, w) ∷ remove_offline_workers now m)
            ≡ (if j == id then some w else lookup id m))
          ⊎ (lookup id
                (if b then remove_offline_workers now m else (j, w) ∷ remove_offline_workers now m)
              ≡ none)
    by_test true q = rw q (λ k. k)
    by_test false q = rw q (λ k. k)

remove_offline_workers-NoneOffline :
    (now : ℕ) (m : Map String WorkerStatus) → NoneOffline (remove_offline_workers now m)
unfolding remove_offline_workers
remove_offline_workers-NoneOffline now [] = tt
remove_offline_workers-NoneOffline now ((id, w) ∷ m) =
    elim (Bool-cases (is_offline w || create_failed now w)) [
      | inl q ↦ rw q (remove_offline_workers-NoneOffline now m)
      | inr q ↦ rw q (ground (arith, q), remove_offline_workers-NoneOffline now m)
    ]

-- What a check leaves, for the tasks of the job: workers that run units of the tasks' modes, and none
-- that is offline; and if it has no error, each task has a worker's status, and each status is of a task.
abbrev pub IsSettled : {S : Type 0} → Job → Loop S → Type 0
IsSettled job l =
    AllFitting job l.statuses
    × NoneOffline l.statuses
    × (l.record_error ≡ none
        → All (λ entry. has entry.0 l.statuses ≡ true) job
          × ((id : String) → has id l.statuses ≡ true → has id job ≡ true))

IsFitting-left :
    (t : Task) (a b : Option WorkerStatus) → (a ≡ b) ⊎ (a ≡ none) → IsFitting t b → IsFitting t a
IsFitting-left t a b (inl same) h = subst (IsFitting t) (sym same) h
IsFitting-left t a none (inr gone) h = subst (IsFitting t) (sym gone) h
IsFitting-left t a (some w) (inr gone) (seq, known, _) = subst (IsFitting t) (sym gone) (seq, known)

AllFitting-mono :
    (job : Job) (a b : Map String WorkerStatus)
    → All (λ entry. (lookup entry.0 a ≡ lookup entry.0 b) ⊎ (lookup entry.0 a ≡ none)) job
    → AllFitting job b
    → AllFitting job a
AllFitting-mono [] a b h fits = tt
AllFitting-mono ((id, t) ∷ rest) a b (h, hs) (fit, fits) =
    (IsFitting-left t (lookup id a) (lookup id b) h fit, AllFitting-mono rest a b hs fits)

everywhere :
    {P : String → Type 0} (job : Job) → ((id : String) → P id) → All (λ entry. P entry.0) job
everywhere [] h = tt
everywhere ((id, t) ∷ rest) h = (h id, everywhere rest h)

module _ {S : Type 0} (agent : WorkerAgent S) (names : NamesWorkers agent)
    (checkpoint : CheckpointAgent) (now : ℕ) where
  settled :
      (job : Job) (left : Map String WorkerStatus) (s : S) (l l' : Loop S)
      → NoneOffline left
      → Stops job left (begin_loop s left) l
      → Schedules job l l'
      → IsSettled job l'
  settled job left s l l' online stops schedules = (
    schedules.0,
    schedules.4 (stops.3 online),
    λ e. (schedules.1 e, λ id there. by_task id (has id job) refl e there),
  )
    where
      by_task :
          (id : String) (b : Bool)
          → has id job ≡ b
          → l'.record_error ≡ none
          → has id l'.statuses ≡ true
          → has id job ≡ true
      by_task id true q e there = q
      by_task id false q e there =
          let there_before : has id l.statuses ≡ true =
            ap is_some (sym (schedules.2 id q)) ∙ there in
          let gone = (stops.1 (schedules.3 e)).1 in
          absurd (at_snapshot (lookup id left) refl there_before gone)
        where
          at_snapshot :
              (o : Option WorkerStatus)
              → lookup id left ≡ o
              → has id l.statuses ≡ true
              → All (λ entry. has entry.0 job ≡ false → lookup entry.0 l.statuses ≡ none) left
              → ⊥
          at_snapshot none missing held gone =
              false≢true (sym (ap is_some (stops.2 id missing)) ∙ held)
          at_snapshot (some w) found held gone = false≢true (
              sym (
                ap is_some (
                  lookup-All (λ entry. has entry.0 job ≡ false → lookup entry.0 l.statuses ≡ none)
                    id left w found gone q))
              ∙ held)

  -- A check of the worker manager, with a worker agent that names the workers it creates, on a job with
  -- each task once and statuses with each task once, where the modes of the job's tasks have units and
  -- their workers run units of them: it comes back without a panic; afterwards the workers of the job's
  -- tasks again run units of the tasks' modes and no status is offline; and if it has no error, each task of
  -- the job has a worker's status and each status is of a task of the job.
  pub tick_impl-IsSettled :
      (job : Job) (m : Map String WorkerStatus) (s : S)
      → IsMap job
      → IsMap m
      → AllFitting job m
      → Returns (tick_impl agent checkpoint now (got job) m s) (IsSettled job)
  unfolding tick_impl
  tick_impl-IsSettled job m s unique unique_m fits =
      let left = remove_offline_workers now m in
      let l = stop_unneeded_workers agent job left (begin_loop s left) in
      let stops =
        stop_unneeded_workers-Stops agent names checkpoint now job left (begin_loop s left) in
      let left_fits =
        AllFitting-mono job left m (everywhere job (λ id. kept_or_gone now m id unique_m)) fits in
      let l_fits =
        AllFitting-mono job l.statuses left
          (All-mono job (λ entry h. inl (stops.0 entry.0 h)) (keys-has job)) left_fits in
      Returns-mono (Schedules job l) (IsSettled job)
        (check_and_schedule_workers agent checkpoint now job l)
        (check_and_schedule_workers-Schedules agent names checkpoint now job l unique l_fits)
        (λ l' schedules.
          settled job left s l l' (remove_offline_workers-NoneOffline now m) stops schedules)
