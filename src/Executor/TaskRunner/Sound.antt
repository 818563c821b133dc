-- ===== src/Executor/TaskRunner/Sound.antt =====
-- What holds of a task runner between two steps, whatever its tasks do.
use microcosm.Base.{
  ℕ, suc, ◌+◌, ◌-◌, ◌≤◌, String, Bool, true, false, some, List, [], ◌∷◌, ◌++◌, Map, lookup, insert,
  delete, length, length-append, length-insert, length-delete, insert-All, delete-All, lookup-All,
  All, IsMap, insert-IsMap, delete-IsMap, String_eq, ltb, eqb, if◌then◌else◌, returns, Returns, has,
  lookup-insert, lookup-delete, ap, sym, subst, ◌==◌, eq_iff, ◌≡◌, ◌≢◌, refl, ◌∙◌, inl, inr, arith,
  Bool-cases, Option-cases,
}
use microcosm.Executor.TaskRunner.{
  RunnableStatus, task_submitted, task_running, task_closing, Stage, in_init, in_event_loop, ended,
  stopped, TaskEntry, TaskRunner, runtime_closed, new_entry, new_task_runner, add_wrapped_task,
  acquire, release, start_task, on_new_task, after_init, init_ends, event_loop_ends, loop_ends,
  close_ends, close_task, delete_task, leave, cancel_tasks, cancel_all,
}
use microcosm.Executor.TaskRunner.Tasks.{
  weight, initializing, initializing-insert_new, initializing-insert, initializing-delete,
  cancel_tasks-initializing, cancel_tasks-length, cancel_tasks-IsMap, cancel_tasks-Fits,
  cancel_tasks-cancelled, Fits, is_stopped, cancel_tasks-is_stopped,
}

-- With `n` for the size of the quota.
pub record IsSound (n : ℕ) (r : TaskRunner) : Type 0 where
  pub quota : r.free + initializing r.tasks ≡ n
  pub counted : r.task_count ≡ length r.tasks + r.leaving
  pub fits : All (λ entry. Fits entry.1) r.tasks
  pub keys : IsMap r.tasks
  pub stopped : r.canceled ≡ true → All (λ entry. entry.1.cancelled ≡ true) r.tasks
  pub bounded : length r.in_queue ≤ r.in_queue_size
  pub owned : (id : String) → has id r.stopping ≡ is_stopped (lookup id r.tasks)

pub new_task_runner-IsSound : (size n : ℕ) → IsSound n (new_task_runner size n)
unfolding new_task_runner initializing lookup
new_task_runner-IsSound size n = record {
  quota = omega arith;
  counted = refl;
  fits = tt;
  keys = tt;
  stopped = λ c. tt;
  bounded = omega arith;
  owned = λ id. refl;
}

-- With other tasks and other counts.
changed-IsSound :
    (n free task_count leaving : ℕ) (tasks : Map String TaskEntry)
    (stopping : Map {0, 0} String Unit) (r : TaskRunner)
    → IsSound n r
    → free + initializing tasks ≡ n
    → task_count ≡ length tasks + leaving
    → All (λ entry. Fits entry.1) tasks
    → IsMap tasks
    → (r.canceled ≡ true → All (λ entry. entry.1.cancelled ≡ true) tasks)
    → ((id : String) → has id stopping ≡ is_stopped (lookup id tasks))
    → IsSound n (record r {
      free = free;
      task_count = task_count;
      leaving = leaving;
      tasks = tasks;
      stopping = stopping;
    })
changed-IsSound n free task_count leaving tasks stopping r v quota counted fits keys all owned =
    record {
      quota = quota;
      counted = counted;
      fits = fits;
      keys = keys;
      stopped = all;
      bounded = v.bounded;
      owned = owned;
    }

module _ (n : ℕ) (r : TaskRunner) (v : IsSound n r) where
  pub queue-IsSound :
      (q : List String) → length q ≤ r.in_queue_size → IsSound n (record r { in_queue = q })
  queue-IsSound q short = record {
    quota = v.quota;
    counted = v.counted;
    fits = v.fits;
    keys = v.keys;
    stopped = v.stopped;
    bounded = short;
    owned = v.owned;
  }

  pub add_wrapped_task-IsSound : (id : String) → IsSound n (add_wrapped_task id r).0
  unfolding add_wrapped_task
  add_wrapped_task-IsSound id = elim (Bool-cases (ltb (length r.in_queue) r.in_queue_size)) [
    | inr full ↦ rw full v
    | inl room ↦
        let more = length-append r.in_queue (id ∷ []) in
        let short : length (r.in_queue ++ id ∷ []) ≤ r.in_queue_size = ground (arith, more, room) in
        rw room (queue-IsSound (r.in_queue ++ id ∷ []) short)
  ]

  -- An entry that is not stopped, for a task that was not.
  kept_owned :
      (id j : String) (f : TaskEntry)
      → has id r.stopping ≡ false
      → is_stopped (some f) ≡ false
      → has j r.stopping ≡ is_stopped (lookup j r.tasks)
      → has j r.stopping ≡ is_stopped (lookup j (insert id f r.tasks))
  kept_owned id j f free open_ h = elim (Bool-cases (id == j)) [
    | inl same ↦
        let at : has j r.stopping ≡ false =
          subst (λ k. has k r.stopping ≡ false) ((eq_iff id j).0 same) free in
        at
        ∙ sym open_
        ∙ ap is_stopped (
            sym (
              lookup-insert id j f r.tasks ∙ ap (λ b. if b then some f else lookup j r.tasks) same))
    | inr other ↦
        h
        ∙ ap is_stopped (
            sym (
              lookup-insert id j f r.tasks
              ∙ ap (λ b. if b then some f else lookup j r.tasks) other))
  ]

  pub start_task-IsSound :
      (id : String)
      → eqb r.free 0 ≡ false
      → r.canceled ≡ false
      → IsSound n (start_task id (record r { free = r.free - 1 })).0
  unfolding start_task release
  start_task-IsSound id some_ open_ = elim (Option-cases (lookup id r.tasks)) [
    | inr (e, held) ↦
        let back : (r.free - 1) + 1 ≡ r.free = ground (arith, some_) in
        rw (held, back)
          (changed-IsSound n r.free r.task_count r.leaving r.tasks r.stopping r v v.quota v.counted
            v.fits v.keys v.stopped v.owned)
    | inl new ↦
        let more = initializing-insert_new id new_entry r.tasks new in
        let longer : length (insert id new_entry r.tasks) ≡ suc (length r.tasks) =
          rw (length-insert id new_entry r.tasks, new) refl in
        let taken : suc (r.free - 1) ≡ r.free = ground (arith, some_) in
        rw new (
          changed-IsSound n (r.free - 1) (r.task_count + 1) r.leaving (insert id new_entry r.tasks)
            r.stopping r v (omega (arith, v.quota, more, taken)) (omega (arith, v.counted, longer))
            (insert-All _ id new_entry r.tasks refl v.fits)
            (insert-IsMap id new_entry r.tasks v.keys) (λ c. absurd (cc))
            (λ j. kept_owned id j new_entry (v.owned id ∙ ap is_stopped new) refl (v.owned j)))
  ]

  pub taken_task-IsSound :
      (id : String) (b : Bool)
      → eqb r.free 0 ≡ false
      → r.canceled ≡ b
      → IsSound n
          (if b
            then (release (record r { free = r.free - 1 }), some runtime_closed)
            else start_task id (record r { free = r.free - 1 })).0
  unfolding release
  taken_task-IsSound id false some_ open_ = start_task-IsSound id some_ open_
  taken_task-IsSound id true some_ done =
      changed-IsSound n ((r.free - 1) + 1) r.task_count r.leaving r.tasks r.stopping r v
        (ground (arith, some_, v.quota)) v.counted v.fits v.keys v.stopped v.owned

  pub on_new_task-IsSound : (id : String) → IsSound n (on_new_task id r).0
  unfolding on_new_task acquire
  on_new_task-IsSound id = elim (Bool-cases (eqb r.free 0)) [
    | inl none_ ↦ rw (on_new_task, acquire, none_) v
    | inr some_ ↦ rw (on_new_task, acquire, some_) (taken_task-IsSound id r.canceled some_ refl)
  ]

  pub cancel_all-IsSound : IsSound n (cancel_all r)
  unfolding cancel_all
  cancel_all-IsSound = by_case r.canceled
    where
      by_case :
          (b : Bool)
          → IsSound n (if b then r else record r { canceled = true; tasks = cancel_tasks r.tasks })
      by_case true = v
      by_case false = record {
        quota = omega (arith, v.quota, cancel_tasks-initializing r.tasks);
        counted = omega (arith, v.counted, cancel_tasks-length r.tasks);
        fits = cancel_tasks-Fits r.tasks v.fits;
        keys = cancel_tasks-IsMap r.tasks v.keys;
        stopped = λ c. cancel_tasks-cancelled r.tasks;
        bounded = v.bounded;
        owned = λ id. v.owned id ∙ sym (cancel_tasks-is_stopped id r.tasks);
      }

  pub leave-IsSound : IsSound n (leave r)
  unfolding leave
  leave-IsSound = elim (Bool-cases (eqb r.leaving 0)) [
    | inl none_ ↦ rw none_ v
    | inr some_ ↦
        let one : suc (r.leaving - 1) ≡ r.leaving = ground (arith, some_) in
        rw some_ (
          changed-IsSound n r.free (r.task_count - 1) (r.leaving - 1) r.tasks r.stopping r v v.quota
            (omega (arith, v.counted, one)) v.fits v.keys v.stopped v.owned)
  ]

  -- An entry that keeps whether it is cancelled, in the place of another one.
  pub put-IsSound :
      (id : String) (e f : TaskEntry) (free : ℕ) (stopping : Map {0, 0} String Unit)
      → lookup id r.tasks ≡ some e
      → f.cancelled ≡ e.cancelled
      → Fits f
      → free + weight f ≡ r.free + weight e
      → ((j : String) → has j stopping ≡ is_stopped (lookup j (insert id f r.tasks)))
      → IsSound n (record r { free = free; tasks = insert id f r.tasks; stopping = stopping })
  put-IsSound id e f free stopping held same fit quota owned =
      let count = initializing-insert id e f r.tasks held in
      let long : length (insert id f r.tasks) ≡ length r.tasks =
        rw (length-insert id f r.tasks, held) refl in
      changed-IsSound n free r.task_count r.leaving (insert id f r.tasks) stopping r v
        (omega (arith, v.quota, count, quota)) (omega (arith, v.counted, long))
        (insert-All _ id f r.tasks fit v.fits) (insert-IsMap id f r.tasks v.keys)
        (λ c.
          let was : e.cancelled ≡ true = lookup-All _ id r.tasks e held (v.stopped c) in
          insert-All _ id f r.tasks (same ∙ was) (v.stopped c))
        owned

  put_open-IsSound :
      (id : String) (e f : TaskEntry) (free : ℕ)
      → lookup id r.tasks ≡ some e
      → is_stopped (some e) ≡ false
      → is_stopped (some f) ≡ false
      → f.cancelled ≡ e.cancelled
      → Fits f
      → free + weight f ≡ r.free + weight e
      → IsSound n (record r { free = free; tasks = insert id f r.tasks })
  put_open-IsSound id e f free held was is same fit quota =
      put-IsSound id e f free r.stopping held same fit quota
        (λ j. kept_owned id j f (v.owned id ∙ ap is_stopped held ∙ was) is (v.owned j))

  pub remove-IsSound :
      (id : String) (e : TaskEntry)
      → lookup id r.tasks ≡ some e
      → weight e ≡ 0
      → IsSound n (record r {
        tasks = delete id r.tasks;
        stopping = delete id r.stopping;
        leaving = r.leaving + 1;
      })
  remove-IsSound id e held light =
      let count = initializing-delete id e r.tasks v.keys held in
      let short : suc (length (delete id r.tasks)) ≡ length r.tasks =
        ground (arith, length-delete id r.tasks v.keys, held) in
      changed-IsSound n r.free r.task_count (r.leaving + 1) (delete id r.tasks)
        (delete id r.stopping) r v (omega (arith, v.quota, count, light))
        (omega (arith, v.counted, short)) (delete-All _ id r.tasks v.fits)
        (delete-IsMap id r.tasks v.keys) (λ c. delete-All _ id r.tasks (v.stopped c))
        (λ j. elim (Bool-cases (id == j)) [
          | inl same ↦ rw (lookup-delete id j r.stopping, lookup-delete id j r.tasks, same) refl
          | inr other ↦
              rw (lookup-delete id j r.stopping, lookup-delete id j r.tasks, other) (v.owned j)
        ])

  -- What the entry of a task that is found may become, with the quota that goes back.
  abbrev Becomes : TaskEntry → ℕ → TaskEntry → Type 0
  Becomes e free f =
      (is_stopped (some f) ≡ false)
      × (f.cancelled ≡ e.cancelled)
      × Fits f
      × (free + weight f ≡ r.free + weight e)

  after_init-Becomes :
      (ok : Bool) (e : TaskEntry)
      → Fits e
      → e.stage ≡ in_init
      → Becomes e (r.free + 1) (after_init ok e)
  after_init-Becomes true e h q = ground (arith, h, q)
  after_init-Becomes false e h q = ground (arith, h, q)

  ended-Becomes :
      (e : TaskEntry)
      → Fits e
      → e.stage ≡ in_event_loop
      → Becomes e r.free (record e { stage = ended })
  ended-Becomes e h q = ground (arith, h, q)

  pub init_ends-IsSound : (id : String) (ok : Bool) → IsSound n (init_ends id ok r)
  unfolding init_ends release
  init_ends-IsSound id ok = elim (Option-cases (lookup id r.tasks)) [
    | inl gone ↦ rw (init_ends, gone) v
    | inr (e, held) ↦ rw (init_ends, held) (by_stage e held e.stage refl)
  ]
    where
      by_stage :
          (e : TaskEntry)
          → lookup id r.tasks ≡ some e
          → (s : Stage) → e.stage ≡ s
          → IsSound n (elim s [
            | in_init ↦ release (record r { tasks = insert id (after_init ok e) r.tasks })
            | _ ↦ r
          ])
      by_stage e held in_event_loop q = v
      by_stage e held ended q = v
      by_stage e held stopped q = v
      by_stage e held in_init q =
          let (open_, same, fit, quota) =
            after_init-Becomes ok e (lookup-All _ id r.tasks e held v.fits) q in
          put_open-IsSound id e (after_init ok e) (r.free + 1) held (ground (arith, q)) open_ same
            fit quota

  pub event_loop_ends-IsSound : (id : String) → Returns (event_loop_ends id false r) (IsSound n)
  unfolding event_loop_ends
  event_loop_ends-IsSound id = elim (Option-cases (lookup id r.tasks)) [
    | inl gone ↦ rw (event_loop_ends, gone) v
    | inr (e, held) ↦ rw (event_loop_ends, held) (by_stage e held e.stage refl)
  ]
    where
      by_stage :
          (e : TaskEntry)
          → lookup id r.tasks ≡ some e
          → (s : Stage) → e.stage ≡ s
          → Returns (elim s [ in_event_loop ↦ loop_ends false id e r | _ ↦ returns r ]) (IsSound n)
      by_stage e held in_init q = v
      by_stage e held ended q = v
      by_stage e held stopped q = v
      by_stage e held in_event_loop q =
          let (open_, same, fit, quota) =
            ended-Becomes e (lookup-All _ id r.tasks e held v.fits) q in
          put_open-IsSound id e (record e { stage = ended }) r.free held (ground (arith, q)) open_
            same fit quota

  stop-IsSound :
      (id : String) (e : TaskEntry)
      → lookup id r.tasks ≡ some e
      → weight e ≡ 0
      → IsSound n (record r {
        tasks = insert id (record e { status = task_closing; stage = stopped }) r.tasks;
        stopping = insert id tt r.stopping;
      })
  stop-IsSound id e held light =
      let f : TaskEntry = record e { status = task_closing; stage = stopped } in
      put-IsSound id e f r.free (insert id tt r.stopping) held refl refl (omega (arith, light))
        (λ j. elim (Bool-cases (id == j)) [
          | inl same ↦
              rw (lookup-insert id j tt r.stopping, lookup-insert id j f r.tasks, same) refl
          | inr other ↦
              rw (lookup-insert id j tt r.stopping, lookup-insert id j f r.tasks, other) (v.owned j)
        ])

  on_stopped-IsSound :
      (id : String) (e : TaskEntry) (s : RunnableStatus)
      → e.status ≡ s
      → lookup id r.tasks ≡ some e
      → weight e ≡ 0
      → s ≢ task_closing
      → Returns (close_ends false id e r) (IsSound n)
  on_stopped-IsSound id e task_closing q held light open_ = absurd (open_ refl)
  on_stopped-IsSound id e task_submitted q held light open_ = rw q (stop-IsSound id e held light)
  on_stopped-IsSound id e task_running q held light open_ = rw q (stop-IsSound id e held light)

  pub close_task-IsSound : (id : String) → Returns (close_task id false r) (IsSound n)
  unfolding close_task
  close_task-IsSound id = elim (Option-cases (lookup id r.tasks)) [
    | inl gone ↦ rw (close_task, gone) v
    | inr (e, held) ↦ rw (close_task, held) (by_stage e held e.stage refl)
  ]
    where
      by_stage :
          (e : TaskEntry)
          → lookup id r.tasks ≡ some e
          → (s : Stage) → e.stage ≡ s
          → Returns (elim s [ ended ↦ close_ends false id e r | _ ↦ returns r ]) (IsSound n)
      by_stage e held in_init q = v
      by_stage e held in_event_loop q = v
      by_stage e held stopped q = v
      by_stage e held ended q =
          let fit : Fits e = lookup-All _ id r.tasks e held v.fits in
          on_stopped-IsSound id e e.status refl held (ground (arith, q)) (ground (arith, q, fit))

  -- A goroutine that is past OnStopped finds its task in the map.
  pub delete_task-IsSound : (id : String) → Returns (delete_task id r) (IsSound n)
  unfolding delete_task
  delete_task-IsSound id = elim (Bool-cases (has id r.stopping)) [
    | inr not_ ↦ rw (delete_task, not_) v
    | inl held ↦ elim (Option-cases (lookup id r.tasks)) [
      | inl gone ↦ absurd (ground (arith, v.owned id, held, gone))
      | inr (e, found) ↦
          rw (delete_task, held, found)
            (remove-IsSound id e found (ground (arith, v.owned id, held, found)))
    ]
  ]
