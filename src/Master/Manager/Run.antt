-- ===== src/Master/Manager/Run.antt =====
-- A worker manager over any sequence of steps: the goroutines of the master, the message handlers
-- and the background checker take m.mu in some order.
use microcosm.Base.{
  ℕ, zero, suc, ◌≤◌, String, Bool, true, false, none, some, Option, List, [], ◌∷◌, ◌≡◌, refl, subst,
  ◌⊎◌, inl, inr, arith, lookup, delete, has, delete-All, lookup-delete_self, ℕ_eq, String_eq,
  if◌then◌else◌, Outcome, returns, panics, Returns, Returns-mono, ReturnsOr, ReturnsOr-bind,
  ReturnsOr-mono, Returns-or, ◌>>=◌, Bool-cases, Option-cases, has-some,
}
use microcosm.Master.Entry.{
  WorkerEntry, WorkerStatus, is_offline, is_tombstone, tombstone, mark_as_tombstone, update_status,
}
use microcosm.Master.Manager.{
  Manager, MasterEvent, MasterError, BeforeHook, no_hook, delete_entry, write_status, bury,
  EventType, is_ready, is_loading, is_waiting, remove_tombstone_entry, HeartbeatPing,
  WorkerStatusMessage, handle_heartbeat, before_starting_worker, abort_creating_worker,
  on_worker_status_update_message, check_worker_entries_once,
}
use microcosm.Master.Manager.Init.{Loaded, init_load, init_resume}
use microcosm.Master.Manager.Tick.{run_hook, Callbacks, call_back, deliver, pop, tick_loop, tick}
use microcosm.Master.Manager.Inv.{
  Inv, Writes, HookFits, HooksFit, NoBurial, store-Inv, retire-Inv, load-found, live-lookup,
}
use microcosm.Master.Manager.Heartbeat.{
  handle_heartbeat-Inv, before_starting_worker-Inv, abort_creating_worker-Inv,
  on_worker_status_update_message-Inv,
}
use microcosm.Master.Manager.Check.{check_worker_entries_once_settles}
use microcosm.Master.Manager.Recover.{init_load-Inv, init_resume_resolves}

forget-Inv :
    (id : String) (m : Manager)
    → Inv m
    → Inv (record m { worker_entries = delete id m.worker_entries })
forget-Inv id m v = record {
  below = v.below;
  live = delete-All (λ entry. has entry.1 m.heap ≡ true) id m.worker_entries v.live;
  awake = λ s. delete-All (λ entry. _) id m.worker_entries (v.awake s);
  hooks = v.hooks;
  quiet = v.quiet;
  loaded = v.loaded;
}

-- What remains when an event is taken out of the queue.
popped-Inv :
    (m : Manager) (ev : MasterEvent) (rest : List MasterEvent)
    → m.event_queue ≡ ev ∷ rest
    → Inv m
    → Inv (record m { event_queue = rest }) × HookFits m.heap rest ev.before_hook
popped-Inv m ev rest q v =
    let h : HooksFit m.heap (ev ∷ rest) = subst (HooksFit m.heap) q v.hooks in
    (
      record {
        below = v.below;
        live = v.live;
        awake = v.awake;
        hooks = h.1;
        quiet = λ n. (subst NoBurial q (v.quiet n)).1;
        loaded = v.loaded;
      },
      h.0,
    )

buried : WorkerEntry → WorkerEntry
buried e = record e { state = tombstone }

bury_offline :
    (e : WorkerEntry) → is_offline e.state ≡ true → mark_as_tombstone e ≡ returns (buried e)
unfolding mark_as_tombstone buried
bury_offline e h = ground arith

status-Writes : (s : Option WorkerStatus) (e : WorkerEntry) → Writes e (update_status s e)
unfolding update_status
status-Writes s e = record { stays_offline = λ h. h; no_new_wait = λ h. h }

-- The hook of an event that was queued finds what it needs.
run_hook-Inv :
    (hook : BeforeHook) (m : Manager)
    → HookFits m.heap m.event_queue hook
    → Inv m
    → Returns (run_hook hook m) (λ (m', due). Inv m')
unfolding run_hook
run_hook-Inv no_hook m f v = v
run_hook-Inv (delete_entry id) m f v = forget-Inv id m v
run_hook-Inv (write_status r s) m f v =
    let (e, found) = has-some (lookup r m.heap) f in
    elim (Bool-cases (is_tombstone e)) [
      | inl dead ↦ rw (load-found r m found, dead) v
      | inr alive ↦
          rw (load-found r m found, alive)
            (store-Inv m r e (update_status s e) found (status-Writes s e) v)
    ]
run_hook-Inv (bury r) m f v = elim (Option-cases (lookup r m.heap)) [
  | inl missing ↦ absurd (ground arith)
  | inr (e, found) ↦
      rw (load-found r m found, bury_offline e (ground arith))
        (retire-Inv m r e (buried e) found (unfold buried in refl) f.1 v)
]

-- What a callback does to the manager, it does by the manager's methods: when it comes back from a
-- sound manager, the manager is sound. It may panic.
abbrev pub OrPanics : {A : Type 0} → Outcome A → (A → Type 0) → Type 0
OrPanics = ReturnsOr Unit

pub record Keep (c : Callbacks) : Type 0 where
  pub keeps :
      (tp : EventType) (ev : MasterEvent) (m : Manager)
      → Inv m
      → OrPanics (call_back c tp ev m) (λ (m', x). Inv m')

-- A callback of the master panics on an event, where the manager is sound.
abbrev pub CallbackPanics : Callbacks → Type 0
CallbackPanics c = (ev : MasterEvent) × (m : Manager) × Inv m × (call_back c ev.tp ev m ≡ panics)

pop-cases :
    (q : List MasterEvent)
    → ((q ≡ []) × (pop q ≡ none))
      ⊎ ((ev : MasterEvent) × (rest : List MasterEvent) × (q ≡ ev ∷ rest)
          × (pop q ≡ some (ev, rest)))
pop-cases [] = inl (refl, refl)
pop-cases (ev ∷ rest) = inr (ev, rest, refl, refl)

abbrev Sound : Manager × Option MasterError → Type 0
Sound (m, x) = Inv m

abbrev Drained : Manager × Option MasterError → Type 0
Drained (m, x) = Inv m × (x ≡ none → m.event_queue ≡ [])

module _ (c : Callbacks) (k : Keep c) where
  called-Inv :
      (ev : MasterEvent) (m : Manager) (o : Outcome (Manager × Option MasterError))
      → call_back c ev.tp ev m ≡ o
      → Inv m
      → OrPanics o Sound
      → ReturnsOr (CallbackPanics c) o Sound
  called-Inv ev m (returns p) q v h = h
  called-Inv ev m panics q v h = (ev, m, v, q)

  due-Inv :
      (ev : MasterEvent) (m : Manager) (due : Bool)
      → Inv m
      → ReturnsOr
          (CallbackPanics c)
          (if due then call_back c ev.tp ev m else returns (m, none))
          Sound
  due-Inv ev m true v = called-Inv ev m (call_back c ev.tp ev m) refl v (k.keeps ev.tp ev m v)
  due-Inv ev m false v = v

  deliver-Inv :
      (ev : MasterEvent) (m : Manager)
      → HookFits m.heap m.event_queue ev.before_hook
      → Inv m
      → ReturnsOr (CallbackPanics c) (deliver c ev m) Sound
  unfolding deliver
  deliver-Inv ev m f v =
      ReturnsOr-bind (CallbackPanics c) (λ (m', due). Inv m') Sound (run_hook ev.before_hook m) _
        (Returns-or (CallbackPanics c) (λ (m', due). Inv m') (run_hook ev.before_hook m)
          (run_hook-Inv ev.before_hook m f v))
        (λ (m', due) q v'. due-Inv ev m' due v')

  tick_loop-Inv :
      (rounds : ℕ) (m : Manager)
      → Inv m
      → ReturnsOr (CallbackPanics c) (tick_loop rounds c m) Drained
  unfolding tick_loop
  tick_loop-Inv zero m v = (v, λ q. absurd (cc))
  tick_loop-Inv (suc rounds) m v = elim (pop-cases m.event_queue) [
    | inl (empty, q) ↦ rw (q, tick_loop) (v, λ _. empty)
    | inr (ev, rest, e, q) ↦
        let (v1, f) = popped-Inv m ev rest e v in
        rw (q, tick_loop)
          (ReturnsOr-bind (CallbackPanics c) Sound Drained
            (deliver c ev (record m { event_queue = rest })) _
            (deliver-Inv ev (record m { event_queue = rest }) f v1)
            (λ (m', x) q v'. go m' x v' (tick_loop-Inv rounds m' v')))
  ]
    where
      go :
          (m' : Manager) (x : Option MasterError)
          → Inv m'
          → ReturnsOr (CallbackPanics c) (tick_loop rounds c m') Drained
          → ReturnsOr
              (CallbackPanics c)
              (elim x [ none ↦ tick_loop rounds c m' | some err ↦ returns (m', some err) ])
              Drained
      go m' (some err) v' h = (v', λ q. absurd (cc))
      go m' none v' h = h

  tick_runs :
      (rounds : ℕ) (m : Manager) → m.err_center ≡ none → tick rounds c m ≡ tick_loop rounds c m
  unfolding tick
  tick_runs rounds m q = ground arith

  tick_refused :
      (rounds : ℕ) (m : Manager) (x : MasterError)
      → m.err_center ≡ some x
      → tick rounds c m ≡ returns (m, some x)
  unfolding tick
  tick_refused rounds m x q = ground arith

  pub tick_drains :
      (rounds : ℕ) (m : Manager) → Inv m → ReturnsOr (CallbackPanics c) (tick rounds c m) Drained
  tick_drains rounds m v = elim (Option-cases m.err_center) [
    | inl q ↦ rw (tick_runs rounds m q) (tick_loop-Inv rounds m v)
    | inr (x, q) ↦ rw (tick_refused rounds m x q) (v, λ r. absurd (cc))
  ]

-- removeTombstoneEntry of a worker that is a tombstone, if it is known, does not panic on a sound
-- manager; it keeps it sound and forgets the worker.
pub remove_tombstone_entry-Inv :
    (id : String) (m : Manager)
    → ((r : ℕ) (e : WorkerEntry)
        → lookup id m.worker_entries ≡ some r
        → lookup r m.heap ≡ some e
        → is_tombstone e ≡ true)
    → Inv m
    → Returns (remove_tombstone_entry id m) (λ m'. Inv m' × (lookup id m'.worker_entries ≡ none))
unfolding remove_tombstone_entry
remove_tombstone_entry-Inv id m t v = elim (Option-cases (lookup id m.worker_entries)) [
  | inl unknown ↦ rw (unknown, remove_tombstone_entry) (v, unknown)
  | inr (r, q) ↦
      let (e, found) = live-lookup m id r v q in
      rw (q, remove_tombstone_entry, load-found r m found, t r e q found)
        (forget-Inv id m v, lookup-delete_self id m.worker_entries)
]

-- Of any worker, removeTombstoneEntry keeps the manager sound if it comes back.
pub remove_tombstone_entry-OrPanics :
    (id : String) (m : Manager) → Inv m → OrPanics (remove_tombstone_entry id m) Inv
unfolding remove_tombstone_entry
remove_tombstone_entry-OrPanics id m v = elim (Option-cases (lookup id m.worker_entries)) [
  | inl unknown ↦ rw (unknown, remove_tombstone_entry) v
  | inr (r, q) ↦
      let (e, found) = live-lookup m id r v q in
      elim (Bool-cases (is_tombstone e)) [
        | inl dead ↦ rw (q, remove_tombstone_entry, load-found r m found, dead) (forget-Inv id m v)
        | inr alive ↦ rw (q, remove_tombstone_entry, load-found r m found, alive) tt
      ]
]

-- The methods, the parts of InitAfterRecover, a round of the background checker, and Tick.
pub data Call : Type 0 where
  heartbeats : ℕ → HeartbeatPing → String → Call
  starts : ℕ → String → String → Call
  aborts : String → Option MasterError → Call
  reports : WorkerStatusMessage → Call
  checks : ℕ → Call
  loads : Loaded → Call
  resumes : Call
  ticks : ℕ → Call
  cleans : String → Call

abbrev first_of_pair : Outcome (Manager × Option MasterError) → Outcome Manager
first_of_pair o = o >>= λ (m, x). returns m

unfoldable pub step : Callbacks → Call → Manager → Outcome Manager
step c (heartbeats now msg node) m = handle_heartbeat now msg node m
step c (starts now worker executor) m = before_starting_worker now worker executor m
step c (aborts worker err) m = returns (abort_creating_worker worker err m)
step c (reports msg) m = on_worker_status_update_message msg m
step c (checks now) m = first_of_pair (check_worker_entries_once now m)
step c (loads loaded) m = returns (init_load loaded m).0
step c resumes m = init_resume m
step c (ticks rounds) m = first_of_pair (tick rounds c m)
step c (cleans worker) m = remove_tombstone_entry worker m

-- What the callers see to: no message of a newer master, a new id for a new worker, and
-- InitAfterRecover once, in its order.
abbrev pub Allowed : Call → Manager → Type 0
Allowed (heartbeats now msg node) m = msg.epoch ≤ m.epoch
Allowed (starts now worker executor) m = lookup worker m.worker_entries ≡ none
Allowed (aborts worker err) m = Unit
Allowed (reports msg) m = msg.master_epoch ≤ m.epoch
Allowed (checks now) m = Unit
Allowed (loads loaded) m = is_loading m.state ≡ true
Allowed resumes m = is_waiting m.state ≡ true
Allowed (ticks rounds) m = Unit
Allowed (cleans worker) m =
    (r : ℕ) (e : WorkerEntry)
    → lookup worker m.worker_entries ≡ some r
    → lookup r m.heap ≡ some e
    → is_tombstone e ≡ true

check-Inv : (now : ℕ) (m : Manager) → Inv m → Returns (check_worker_entries_once now m) Sound
check-Inv now m v = elim (Bool-cases (is_ready m.state)) [
  | inl up ↦
      Returns-mono _ Sound (check_worker_entries_once now m)
        (check_worker_entries_once_settles now m v up) (λ (m', x) h. h.0)
  | inr down ↦ unfold check_worker_entries_once in rw down v
]

module _ (B : Type 0) where
  forget_error :
      (o : Outcome (Manager × Option MasterError))
      → ReturnsOr B o Sound
      → ReturnsOr B (first_of_pair o) Inv
  forget_error (returns (m, x)) h = h
  forget_error panics h = h

module _ (c : Callbacks) (k : Keep c) where
  -- No allowed step panics but for its callbacks, and each keeps the manager sound.
  pub step-Inv :
      (call : Call) (m : Manager)
      → Allowed call m
      → Inv m
      → ReturnsOr (CallbackPanics c) (step c call m) Inv
  unfolding step
  step-Inv (heartbeats now msg node) m a v =
      Returns-or (CallbackPanics c) Inv (handle_heartbeat now msg node m)
        (handle_heartbeat-Inv now msg node m a v)
  step-Inv (starts now worker executor) m a v =
      Returns-or (CallbackPanics c) Inv (before_starting_worker now worker executor m)
        (before_starting_worker-Inv now worker executor m a v)
  step-Inv (aborts worker err) m a v = abort_creating_worker-Inv worker err m v
  step-Inv (reports msg) m a v =
      Returns-or (CallbackPanics c) Inv (on_worker_status_update_message msg m)
        (on_worker_status_update_message-Inv msg m a v)
  step-Inv (checks now) m a v =
      forget_error (CallbackPanics c) (check_worker_entries_once now m)
        (Returns-or (CallbackPanics c) Sound (check_worker_entries_once now m) (check-Inv now m v))
  step-Inv (loads loaded) m a v = init_load-Inv loaded m a v
  step-Inv resumes m a v =
      Returns-or (CallbackPanics c) Inv (init_resume m)
        (Returns-mono _ Inv (init_resume m) (init_resume_resolves m v a) (λ m' h. h.0))
  step-Inv (ticks rounds) m a v = forget_error (CallbackPanics c) (tick rounds c m) (
      ReturnsOr-mono (CallbackPanics c) Drained Sound (tick rounds c m) (tick_drains c k rounds m v)
        (λ p h. h.0))
  step-Inv (cleans worker) m a v =
      Returns-or (CallbackPanics c) Inv (remove_tombstone_entry worker m) (
        Returns-mono _ Inv (remove_tombstone_entry worker m)
          (remove_tombstone_entry-Inv worker m a v) (λ m' h. h.0))

unfoldable pub run : Callbacks → List Call → Manager → Outcome Manager
run c [] m = returns m
run c (call ∷ calls) m = step c call m >>= run c calls

-- Each step is allowed where it is made.
abbrev pub AllAllowed : Callbacks → List Call → Manager → Type 0
AllAllowed c [] m = Unit
AllAllowed c (call ∷ calls) m =
    Allowed call m × ((m' : Manager) → step c call m ≡ returns m' → AllAllowed c calls m')

-- With callbacks that leave a sound manager sound when they come back, no sequence of allowed steps from a
-- sound manager panics, unless a callback does on an event and a sound manager; and the manager that it
-- reaches is sound: its references are live, no entry waits once it is ready, and no burial is queued for
-- an entry that is not offline. Allowed is what the callers see to: no message of a newer epoch, a new id
-- for a new worker, the parts of InitAfterRecover in their order, and CleanTombstone of a worker that is a
-- tombstone.
pub run-Inv :
    (c : Callbacks) (calls : List Call) (m : Manager)
    → Keep c
    → AllAllowed c calls m
    → Inv m
    → ReturnsOr (CallbackPanics c) (run c calls m) Inv
unfolding run
run-Inv c [] m k a v = v
run-Inv c (call ∷ calls) m k a v =
    ReturnsOr-bind (CallbackPanics c) Inv Inv (step c call m) (run c calls)
      (step-Inv c k call m a.0 v) (λ m' e v'. run-Inv c calls m' k (a.1 m' e) v')
