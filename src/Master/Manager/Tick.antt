-- ===== src/Master/Manager/Tick.antt =====
-- Tick of lib/master/worker_manager.go.
use microcosm.Base.{
  ℕ, zero, suc, Bool, true, false, Option, none, some, List, [], ◌∷◌, delete, String_eq, Outcome,
  returns, ◌>>=◌, if◌then◌else◌,
}
use microcosm.Master.Entry.{is_tombstone, update_status, mark_as_tombstone}
use microcosm.Master.Manager.{
  Manager, MasterEvent, MasterError, EventType, worker_online_event, worker_offline_event,
  worker_status_updated_event, worker_dispatch_failed_event, Handle, BeforeHook, no_hook,
  delete_entry, write_status, bury, load, store, context_done,
}

-- The hook of an event; its second result says whether the callback is still due.
unfoldable pub run_hook : BeforeHook → Manager → Outcome (Manager × Bool)
run_hook no_hook m = returns (m, true)
run_hook (delete_entry id) m =
    returns (record m { worker_entries = delete id m.worker_entries }, true)
run_hook (write_status r status) m = do
  e ← load r m
  if is_tombstone e then returns (m, false) else returns (store r (update_status status e) m, true)
run_hook (bury r) m = do e ← load r m; dead ← mark_as_tombstone e; returns (store r dead m, true)

-- The callbacks belong to the master; one may call the manager's methods.
pub record Callbacks : Type 0 where
  pub on_worker_onlined : Handle → Manager → Outcome (Manager × Option MasterError)
  pub on_worker_offlined :
      Handle → Option MasterError → Manager → Outcome (Manager × Option MasterError)
  pub on_worker_status_updated : Handle → Manager → Outcome (Manager × Option MasterError)
  pub on_worker_dispatched :
      Handle → Option MasterError → Manager → Outcome (Manager × Option MasterError)

abbrev pub call_back :
    Callbacks → EventType → MasterEvent → Manager → Outcome (Manager × Option MasterError)
call_back c worker_online_event ev = c.on_worker_onlined ev.handle
call_back c worker_offline_event ev = c.on_worker_offlined ev.handle ev.err
call_back c worker_status_updated_event ev = c.on_worker_status_updated ev.handle
call_back c worker_dispatch_failed_event ev = c.on_worker_dispatched ev.handle ev.err

-- One event, already taken out of the queue.
unfoldable pub deliver : Callbacks → MasterEvent → Manager → Outcome (Manager × Option MasterError)
deliver c ev m = run_hook ev.before_hook m >>= λ (m', due).
    if due then call_back c ev.tp ev m' else returns (m', none)

abbrev pub pop : List MasterEvent → Option (MasterEvent × List MasterEvent)
pop [] = none
pop (ev ∷ rest) = some (ev, rest)

-- The loop, until the queue is empty, a callback fails, or the context ends, after `rounds` rounds.
unfoldable pub tick_loop : ℕ → Callbacks → Manager → Outcome (Manager × Option MasterError)
tick_loop zero c m = returns (m, some context_done)
tick_loop (suc rounds) c m = elim (pop m.event_queue) [
  | none ↦ returns (m, none)
  | some (ev, rest) ↦ deliver c ev (record m { event_queue = rest }) >>= λ (m', e). elim e [
    | none ↦ tick_loop rounds c m'
    | some err ↦ returns (m', some err)
  ]
]

unfoldable pub tick : ℕ → Callbacks → Manager → Outcome (Manager × Option MasterError)
tick rounds c m = elim m.err_center [ some e ↦ returns (m, some e) | none ↦ tick_loop rounds c m ]
