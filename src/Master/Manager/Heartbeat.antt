-- ===== src/Master/Manager/Heartbeat.antt =====
-- HandleHeartbeat, and the other methods that a message or a new worker calls.
use microcosm.Base.{
  ℕ, ◌≤◌, String, Bool, true, false, ◌||◌, not, none, some, Option, [], ◌∷◌, ◌≡◌, refl, ◌⊎◌, inl,
  inr, Map, arith, lookup, lookup-All, lookup-insert_self, ℕ_eq, String_eq, ltb, if◌then◌else◌,
  returns, Returns, ◌>>=◌, Bool-cases, Option-cases,
}
use microcosm.Master.Entry.{
  WorkerEntry, normal, is_wait, is_created, mark_as_online, set_expire_time, set_finished,
  new_worker_entry,
}
use microcosm.Master.Manager.{
  Manager, MasterError, HeartbeatPing, WorkerStatusMessage, is_loading, is_waiting, load, store,
  all_ready, close_all_workers_ready, discover, first_heartbeat, touched, next_expire_time,
  handle_heartbeat, check_master_epoch_match, before_starting_worker, abort_creating_worker,
  on_worker_status_update_message,
}
use microcosm.Master.Manager.Inv.{
  Inv, Writes, load-found, AllLive, NoneWaits, waits_at, store-Inv, alloc-Inv,
  enqueue_or_report-Inv, live-lookup,
}

all_ready_lem :
    (m : Manager) (xs : Map String ℕ)
    → AllLive m.heap xs
    → ((all_ready xs m ≡ returns true) × NoneWaits m.heap xs) ⊎ (all_ready xs m ≡ returns false)
unfolding all_ready load
all_ready_lem m [] l = inl (refl, tt)
all_ready_lem m ((id, r) ∷ xs) l = ground (arith, all_ready_lem m xs l.1)

touched-Writes : (t : ℕ) (b : Bool) (e : WorkerEntry) → Writes e (touched t b e)
unfolding set_expire_time set_finished
touched-Writes t b e = ground arith

announce-Inv :
    (m : Manager) (ready : Bool)
    → Inv m
    → m.all_workers_ready ≡ false
    → is_loading m.state ≡ false
    → (ready ≡ true → NoneWaits m.heap m.worker_entries)
    → Returns (if ready then close_all_workers_ready m else returns m) Inv
unfolding close_all_workers_ready
announce-Inv m false v o l w = v
announce-Inv m true v o l w = rw o (record {
  below = v.below;
  live = v.live;
  awake = λ s. w refl;
  hooks = v.hooks;
  quiet = v.quiet;
  loaded = λ s. l;
})

online : String → ℕ → WorkerEntry → WorkerEntry
online x t e = record e { state = normal; expire_at = t; executor_id = x }

mark_as_online_lem :
    (x : String) (t : ℕ) (e : WorkerEntry)
    → is_created e.state || is_wait e.state ≡ true
    → mark_as_online x t e ≡ returns (online x t e)
unfolding mark_as_online online
mark_as_online_lem x t e h = rw h

online-Writes :
    (x : String) (t : ℕ) (e : WorkerEntry)
    → is_created e.state || is_wait e.state ≡ true
    → Writes e (online x t e)
unfolding online
online-Writes x t e h = ground arith

store_reads : (r : ℕ) (e : WorkerEntry) (m : Manager) → lookup r (store r e m).heap ≡ some e
unfolding store
store_reads r e m = lookup-insert_self r e m.heap

still_open :
    (m : Manager) (id : String) (r : ℕ) {e : WorkerEntry}
    → Inv m
    → lookup id m.worker_entries ≡ some r
    → lookup r m.heap ≡ some e
    → is_wait e.state ≡ true
    → m.all_workers_ready ≡ false
still_open m id r v q found waits = elim (Bool-cases m.all_workers_ready) [
  | inr o ↦ o
  | inl closed ↦
      let none_waits = v.awake (ground arith) in
      let asleep =
        lookup-All (λ entry. waits_at m.heap entry.1 ≡ false) id m.worker_entries r q none_waits in
      ground arith
]

module _ (now : ℕ) (r : ℕ) (from_node : String) (m : Manager) (v : Inv m) {e : WorkerEntry}
    (found : lookup r m.heap ≡ some e) where
  -- The channel is still open when a worker is discovered, so it is closed once only.
  discover-Inv :
      (id : String)
      → lookup id m.worker_entries ≡ some r
      → is_loading m.state ≡ false
      → Returns (discover now r from_node m) Inv
  unfolding discover store
  discover-Inv id q l = elim (Bool-cases (is_wait e.state)) [
    | inr no_wait ↦ rw (load-found r m found, no_wait) v
    | inl waits ↦
        let may : is_created e.state || is_wait e.state ≡ true = ground arith in
        let t = next_expire_time now m in
        let f = online from_node t e in
        let m' = store r f m in
        let v' : Inv m' = store-Inv m r e f found (online-Writes from_node t e may) v in
        let open_ = still_open m id r v q found waits in
        rw (load-found r m found, waits, mark_as_online_lem from_node t e may)
          (elim (all_ready_lem m' m'.worker_entries v'.live) [
            | inl (all, none_waits) ↦ rw all (announce-Inv m' true v' open_ l (λ s. none_waits))
            | inr some_wait ↦ rw some_wait (announce-Inv m' false v' open_ l (λ s. absurd (cc)))
          ])
  ]

  first_heartbeat-Inv : (id : String) → Returns (first_heartbeat now id r from_node m) Inv
  unfolding first_heartbeat
  first_heartbeat-Inv id = elim (Bool-cases (is_created e.state)) [
    | inr late ↦ rw (load-found r m found, late) v
    | inl first ↦
        let may : is_created e.state || is_wait e.state ≡ true = ground arith in
        let t = next_expire_time now m in
        rw (load-found r m found, first, mark_as_online_lem from_node t e may)
          (enqueue_or_report-Inv (store r (online from_node t e) m) _ tt refl
            (store-Inv m r e (online from_node t e) found (online-Writes from_node t e may) v))
  ]

check_epoch :
    (n : ℕ) (m : Manager)
    → n ≤ m.epoch
    → check_master_epoch_match n m ≡ returns (not (ltb n m.epoch))
unfolding check_master_epoch_match
check_epoch n m h = ground arith

-- A heartbeat whose epoch is not newer than the sound manager's does not panic, and keeps it sound.
pub handle_heartbeat-Inv :
    (now : ℕ) (msg : HeartbeatPing) (from_node : String) (m : Manager)
    → msg.epoch ≤ m.epoch
    → Inv m
    → Returns (handle_heartbeat now msg from_node m) Inv
unfolding handle_heartbeat store
handle_heartbeat-Inv now msg from_node m h v = elim (Bool-cases (is_loading m.state)) [
  | inl l ↦ rw l v
  | inr l ↦
      rw (l, check_epoch msg.epoch m h)
        (elim (Bool-cases (ltb msg.epoch m.epoch)) [
          | inl old ↦ rw old v
          | inr same ↦ rw same (elim (Option-cases (lookup msg.from_worker_id m.worker_entries)) [
            | inl unknown ↦ rw unknown v
            | inr (r, q) ↦ rw q (known r q l)
          ])
        ])
]
  where
    known :
        (r : ℕ)
        → lookup msg.from_worker_id m.worker_entries ≡ some r
        → is_loading m.state ≡ false
        → Returns
            (load r m >>= λ e.
              let m' = store r (touched (next_expire_time now m) msg.is_finished e) m in
              if is_waiting m.state
              then discover now r from_node m'
              else first_heartbeat now msg.from_worker_id r from_node m')
            Inv
    known r q l =
        let (e, found) = live-lookup m msg.from_worker_id r v q in
        let f = touched (next_expire_time now m) msg.is_finished e in
        let m' = store r f m in
        let v' : Inv m' = store-Inv m r e f found (touched-Writes _ _ e) v in
        rw (load-found r m found) (elim (Bool-cases (is_waiting m.state)) [
          | inl w ↦
              rw w (discover-Inv now r from_node m' v' (store_reads r f m) msg.from_worker_id q l)
          | inr w ↦
              rw w
                (first_heartbeat-Inv now r from_node m' v' (store_reads r f m) msg.from_worker_id)
        ])

-- A worker that is not known yet is put on the books.
pub before_starting_worker-Inv :
    (now : ℕ) (worker_id executor_id : String) (m : Manager)
    → lookup worker_id m.worker_entries ≡ none
    → Inv m
    → Returns (before_starting_worker now worker_id executor_id m) Inv
unfolding before_starting_worker
before_starting_worker-Inv now worker_id executor_id m q v =
    rw q (alloc-Inv m worker_id _ (unfold new_worker_entry in λ s. absurd (cc)) v)

pub abort_creating_worker-Inv :
    (id : String) (err : Option MasterError) (m : Manager)
    → Inv m
    → Inv (abort_creating_worker id err m)
unfolding abort_creating_worker
abort_creating_worker-Inv id err m v = enqueue_or_report-Inv m _ tt refl v

pub on_worker_status_update_message-Inv :
    (msg : WorkerStatusMessage) (m : Manager)
    → msg.master_epoch ≤ m.epoch
    → Inv m
    → Returns (on_worker_status_update_message msg m) Inv
unfolding on_worker_status_update_message
on_worker_status_update_message-Inv msg m h v =
    rw (check_epoch msg.master_epoch m h) (elim (Bool-cases (ltb msg.master_epoch m.epoch)) [
      | inl old ↦ rw old v
      | inr same ↦ rw same (elim (Option-cases (lookup msg.worker m.worker_entries)) [
        | inl unknown ↦ rw unknown v
        | inr (r, q) ↦
            let (e, found) = live-lookup m msg.worker r v q in
            rw (q, load-found r m found) (enqueue_or_report-Inv m _ (ground arith) refl v)
      ])
    ])
