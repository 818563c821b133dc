-- ===== src/Master/Creation/Ends.antt =====
-- How the creation of a worker ends.
use microcosm.Base.{
  ℕ, ◌+◌, ◌-◌, String, Bool, true, false, Option, none, some, List, [], ◌∷◌, eqb, has,
  lookup-insert_self, String_eq, returns, Returns, Returns-bind, Returns-mono, All, ◌≡◌, refl, sym,
  ◌>>=◌, subst, ◌∙◌, inl, inr, arith, Bool-cases, Option-cases, is_some, not, ◌++◌, ◌<◌, ◌≤◌, ◌≢◌,
  length, if◌then◌else◌,
}
use microcosm.Master.Manager.{
  Manager, MasterEvent, worker_dispatch_failed_event, tombstone_of, delete_entry, other_error,
  event_queue_size, before_starting_worker, abort_creating_worker, enqueue_or_report, enqueue_event,
  on_error, alloc,
}
use microcosm.Master.Creation.{
  Reply, response, status_error, plain_error, aborted, already_exists, not_found, other_code, Round,
  Attempt, PreDispatch, pre_dispatched, should_retry, give_up, pre_dispatch_task_once,
  pre_dispatch_task_with_retry, confirm_dispatch_task, confirmed, started, dispatch_task,
  abort_with, dispatch_worker, BaseMaster, WorkerConfig, Prepared, prepared, unprepared,
  prepare_worker_config, create_worker, finish_worker, follow,
}

-- The executor has not met the request before.
abbrev pub IsNew : Reply → Type 0
IsNew (status_error already_exists e) = ⊥
IsNew _ = Unit

pre_dispatch_task_once-answers :
    (r : Reply) → IsNew r → (p : PreDispatch) × (pre_dispatch_task_once r ≡ returns p)
unfolding pre_dispatch_task_once
pre_dispatch_task_once-answers response h = (pre_dispatched, refl)
pre_dispatch_task_once-answers (plain_error e) h = (give_up e, refl)
pre_dispatch_task_once-answers (status_error aborted e) h = (give_up e, refl)
pre_dispatch_task_once-answers (status_error already_exists e) h = absurd h
pre_dispatch_task_once-answers (status_error not_found e) h = (should_retry e, refl)
pre_dispatch_task_once-answers (status_error other_code e) h = (should_retry e, refl)

-- Does a round end with an executor that has taken the request?
unfoldable pub is_taken : List Round → Bool
is_taken [] = false
is_taken (round ∷ rounds) =
    let later = is_taken rounds in
    if round.done then false else elim round.reply [
      | response ↦ true
      | plain_error _ ↦ false
      | status_error code _ ↦ elim code [
        | aborted ↦ false
        | already_exists ↦ false
        | not_found ↦ if round.no_time_left then false else later
        | other_code ↦ if round.no_time_left then false else later
      ]
    ]

abbrev Answers : List Round → Option String → Type 0
Answers rounds o =
    (pre_dispatch_task_with_retry rounds ≡ returns o) × (is_some o ≡ not (is_taken rounds))

pre_dispatch-Answers :
    (rounds : List Round) → All (λ r. IsNew r.reply) rounds → (o : Option String) × Answers rounds o
unfolding pre_dispatch_task_with_retry pre_dispatch_task_once is_taken
pre_dispatch-Answers [] h = (some "context done", (refl, refl))
pre_dispatch-Answers (round ∷ rounds) h =
    let (o, a) = pre_dispatch-Answers rounds h.1 in
    elim (Bool-cases round.done) [
      | inl over ↦ (some "context done", (rw over refl, rw over refl))
      | inr going ↦ by_reply o a going round.reply refl h.0
    ]
  where
    again :
        (o : Option String) (e : String)
        → Answers rounds o
        → (o' : Option String) × (((if round.no_time_left
                then returns (some "no time left")
                else pre_dispatch_task_with_retry rounds)
              ≡ returns o')
            × (is_some o' ≡ not (if round.no_time_left then false else is_taken rounds)))
    again o e a = elim (Bool-cases round.no_time_left) [
      | inl late ↦ (some "no time left", (rw late refl, rw late refl))
      | inr time ↦ (o, (rw time a.0, rw time a.1))
    ]

    by_reply :
        (o : Option String)
        → Answers rounds o
        → round.done ≡ false
        → (r : Reply) → round.reply ≡ r
        → IsNew r
        → (o' : Option String) × Answers (round ∷ rounds) o'
    by_reply o a going response q n = (none, (rw (going, q) refl, rw (going, q) refl))
    by_reply o a going (plain_error e) q n = (some e, (rw (going, q) refl, rw (going, q) refl))
    by_reply o a going (status_error aborted e) q n =
        (some e, (rw (going, q) refl, rw (going, q) refl))
    by_reply o a going (status_error already_exists e) q n = absurd n
    by_reply o a going (status_error not_found e) q n = rw (going, q) (again o e a)
    by_reply o a going (status_error other_code e) q n = rw (going, q) (again o e a)

-- The event that says that the creation has failed. Its hook will drop the entry of the worker.
abbrev pub failure : String → String → MasterEvent
failure id e = record {
  tp = worker_dispatch_failed_event;
  handle = tombstone_of id;
  worker_id = id;
  err = some (other_error e);
  before_hook = delete_entry id;
}

-- The manager has the failure in its queue, or if that was full an error to report.
abbrev pub IsReported : String → String → Manager → Manager → Type 0
IsReported id e before after =
    (length before.event_queue < event_queue_size
      → after.event_queue ≡ before.event_queue ++ failure id e ∷ [])
    × (event_queue_size ≤ length before.event_queue → after.err_center ≢ none)

abbrev pub Confirmed : String → Manager → Manager → Reply → Type 0
Confirmed id m m' (status_error aborted e) =
    (has id m'.worker_entries ≡ true) × IsReported id e m m'
Confirmed id m m' (status_error not_found e) =
    (has id m'.worker_entries ≡ true) × IsReported id e m m'
Confirmed id m m' _ = (has id m'.worker_entries ≡ true) × (m'.event_queue ≡ m.event_queue)

-- What the manager learns, by what the scheduler, the table of executors and the executor answer.
abbrev pub Dispatched : String → Attempt → Manager → Manager → Bool → Type 0
Dispatched id a m m' true = Confirmed id m m' a.confirm
Dispatched id a m m' false = m' ≡ m

abbrev pub Added : String → Attempt → Manager → Manager → Option String → Type 0
Added id a m m' (some e) = IsReported id e m m' × (m'.worker_entries ≡ m.worker_entries)
Added id a m m' none = Dispatched id a m m' (is_taken a.rounds)

abbrev pub Told : String → Attempt → Manager → Manager → Option String → Type 0
Told id a m m' (some e) = IsReported id e m m' × (m'.worker_entries ≡ m.worker_entries)
Told id a m m' none = Added id a m m' a.add_executor_error

abort_entries :
    (id e : String) (m : Manager) → (abort_with id e m).worker_entries ≡ m.worker_entries
unfolding abort_creating_worker enqueue_or_report enqueue_event on_error
abort_entries id e m = ground arith

abort-IsReported : (id e : String) (m : Manager) → IsReported id e m (abort_with id e m)
unfolding abort_creating_worker enqueue_or_report enqueue_event on_error
abort-IsReported id e m = (λ room. ground (arith, room), λ full q. ground (arith, full, q))

start_known :
    (now : ℕ) (id executor_id : String) (m : Manager)
    → has id m.worker_entries ≡ false
    → Returns
        (before_starting_worker now id executor_id m)
        (λ m'. (has id m'.worker_entries ≡ true) × (m'.event_queue ≡ m.event_queue))
unfolding before_starting_worker alloc
start_known now id executor_id m new = grind (arith, new, lookup-insert_self)

module _ (id : String) (a : Attempt) (m : Manager) (new : has id m.worker_entries ≡ false) where
  reported :
      (m1 : Manager) (e : String)
      → has id m1.worker_entries ≡ true
      → m1.event_queue ≡ m.event_queue
      → (has id (abort_with id e m1).worker_entries ≡ true) × IsReported id e m (abort_with id e m1)
  reported m1 e known same = (
    rw (abort_entries id e m1) known,
    subst
        (λ q.
          (length q < event_queue_size → (abort_with id e m1).event_queue ≡ q ++ failure id e ∷ [])
          × (event_queue_size ≤ length q → (abort_with id e m1).err_center ≢ none))
        same (abort-IsReported id e m1),
  )

  -- After PreDispatchTask.
  confirmed-Confirmed :
      (m1 : Manager) (r : Reply)
      → has id m1.worker_entries ≡ true
      → m1.event_queue ≡ m.event_queue
      → Confirmed id m (confirmed (abort_with id) m1 (confirm_dispatch_task r)).0 r
  unfolding confirm_dispatch_task
  confirmed-Confirmed m1 response known same = (known, same)
  confirmed-Confirmed m1 (plain_error e) known same = (known, same)
  confirmed-Confirmed m1 (status_error already_exists e) known same = (known, same)
  confirmed-Confirmed m1 (status_error other_code e) known same = (known, same)
  confirmed-Confirmed m1 (status_error aborted e) known same = reported m1 e known same
  confirmed-Confirmed m1 (status_error not_found e) known same = reported m1 e known same

  started-Dispatched :
      (o : Option String) (taken : Bool)
      → is_some o ≡ not taken
      → Returns
          (started (before_starting_worker a.now id a.executor_id) (abort_with id) a.confirm m o)
          (λ (m', e). Dispatched id a m m' taken)
  started-Dispatched (some e) true n = absurd (cc)
  started-Dispatched (some e) false n = refl
  started-Dispatched none false n = absurd (cc)
  started-Dispatched none true n =
      Returns-bind (λ m'. (has id m'.worker_entries ≡ true) × (m'.event_queue ≡ m.event_queue))
        (λ (m', e). Dispatched id a m m' true) (before_starting_worker a.now id a.executor_id m)
        (λ m'. returns (confirmed (abort_with id) m' (confirm_dispatch_task a.confirm)))
        (start_known a.now id a.executor_id m new)
        (λ m1 (known, same). confirmed-Confirmed m1 a.confirm known same)

  dispatch_task-Dispatched :
      All (λ r. IsNew r.reply) a.rounds
      → Returns
          (dispatch_task
            (before_starting_worker a.now id a.executor_id)
            (abort_with id)
            a.rounds
            a.confirm
            m)
          (λ (m', e). Dispatched id a m m' (is_taken a.rounds))
  unfolding dispatch_task
  dispatch_task-Dispatched fresh =
      let (o, (q, n)) = pre_dispatch-Answers a.rounds fresh in
      subst
        (λ x.
          Returns
            (x
              >>= started (before_starting_worker a.now id a.executor_id) (abort_with id) a.confirm
                  m)
            (λ (m', e). Dispatched id a m m' (is_taken a.rounds)))
        (sym q) (started-Dispatched o (is_taken a.rounds) n)

  -- The goroutine of CreateWorker, for a worker that the manager does not know, of which no executor has
  -- met a request before, does not panic. If no executor is found, or it is not reachable, the failure is
  -- in the manager's queue with the hook that drops the worker, or there is an error if that is full. If
  -- PreDispatchTask fails the manager is as before: it is not told. Else the manager knows the worker, and
  -- is told of a confirmation whose failure is guaranteed in the same way, and of nothing else.
  pub dispatch_worker-Told :
      All (λ r. IsNew r.reply) a.rounds
      → Returns (dispatch_worker id a m) (λ m'. Told id a m m' a.schedule_error)
  unfolding dispatch_worker
  dispatch_worker-Told fresh = elim (Option-cases a.schedule_error) [
    | inr (e, q) ↦ rw (dispatch_worker, q) (abort-IsReported id e m, abort_entries id e m)
    | inl ok ↦ elim (Option-cases a.add_executor_error) [
      | inr (e, q) ↦ rw (dispatch_worker, ok, q) (abort-IsReported id e m, abort_entries id e m)
      | inl ok' ↦
          rw (dispatch_worker, ok, ok')
            (Returns-bind (λ (m', e). Dispatched id a m m' (is_taken a.rounds))
              (λ m'. Dispatched id a m m' (is_taken a.rounds))
              (dispatch_task (before_starting_worker a.now id a.executor_id) (abort_with id)
                a.rounds a.confirm m)
              (λ (m', e). returns m') (dispatch_task-Dispatched fresh) (λ (m', e) h. h))
    ]
  ]

-- With quota left, a creation whose configuration is prepared gives its quota back at its end; one whose
-- configuration is not keeps it for good.
abbrev pub Settled : BaseMaster → Prepared → BaseMaster → Type 0
Settled b (prepared id) b' = b'.create_worker_quota ≡ b.create_worker_quota
Settled b (unprepared e) b' = b'.create_worker_quota + 1 ≡ b.create_worker_quota

finish_worker-quota :
    (id : String) (a : Attempt) (b : BaseMaster)
    → has id b.worker_manager.worker_entries ≡ false
    → All (λ r. IsNew r.reply) a.rounds
    → Returns (finish_worker id a b) (λ b'. b'.create_worker_quota ≡ b.create_worker_quota + 1)
unfolding finish_worker
finish_worker-quota id a b new fresh =
    Returns-bind (λ m'. Told id a b.worker_manager m' a.schedule_error)
      (λ b'. b'.create_worker_quota ≡ b.create_worker_quota + 1)
      (dispatch_worker id a b.worker_manager) _
      (dispatch_worker-Told id a b.worker_manager new fresh) (λ m' h. refl)

follow-Settled :
    (a : Attempt) (b : BaseMaster) (p : Prepared)
    → (b.create_worker_quota - 1) + 1 ≡ b.create_worker_quota
    → ((id : String) → p ≡ prepared id → has id b.worker_manager.worker_entries ≡ false)
    → All (λ r. IsNew r.reply) a.rounds
    → Returns
        (follow a (record b { create_worker_quota = b.create_worker_quota - 1 }, p))
        (Settled b p)
follow-Settled a b (unprepared e) left new fresh = left
follow-Settled a b (prepared id) left new fresh =
    Returns-mono _ (Settled b (prepared id))
      (finish_worker id a (record b { create_worker_quota = b.create_worker_quota - 1 }))
      (finish_worker-quota id a (record b { create_worker_quota = b.create_worker_quota - 1 })
        (new id refl) fresh)
      (λ b' q. q ∙ left)

-- A creation with quota left does not panic, if its worker is one that the manager does not know and no
-- executor has met its requests before. At the end of its goroutine, if there was one, the quota is what
-- it was before; but if the configuration could not be prepared, one unit of it is lost.
pub create_worker-Settled :
    (tp : ℕ) (config : WorkerConfig) (encodes : Bool) (new_id : String) (a : Attempt)
    (b : BaseMaster)
    → eqb b.create_worker_quota 0 ≡ false
    → ((id : String)
        → prepare_worker_config tp config encodes new_id ≡ prepared id
        → has id b.worker_manager.worker_entries ≡ false)
    → All (λ r. IsNew r.reply) a.rounds
    → Returns
        (follow a (create_worker tp config encodes new_id b))
        (Settled b (prepare_worker_config tp config encodes new_id))
unfolding create_worker
create_worker-Settled tp config encodes new_id a b left new fresh =
    rw (create_worker, left)
      (follow-Settled a b (prepare_worker_config tp config encodes new_id) (ground (arith, left))
        new fresh)
