-- ===== src/Master/Manager/Recover.antt =====
-- InitAfterRecover keeps a manager sound, and resolves every entry.
use microcosm.Base.{
  ℕ, String, Bool, true, false, ◌||◌, ◌&&◌, not, none, some, [], ◌∷◌, ◌≡◌, refl, sym, subst, ◌∙◌,
  inl, inr, Map, arith, lookup, All, All-mono, lookup-insert, lookup-insert_self, ℕ_eq, String_eq,
  eqb, length, returns, Returns, Returns-mono, Returns-bind, Bool-cases, has-some,
}
use microcosm.Master.Entry.{
  WorkerEntry, WorkerStatus, StatusCode, same_code, tombstone, is_wait, is_tomb, is_finished,
  mark_as_tombstone, new_waiting_worker_entry,
}
use microcosm.Master.Manager.{Manager, ready, is_ready, is_loading, is_waiting, store, alloc}
use microcosm.Master.Manager.Init.{
  Loaded, failed, workers, load_workers, init_load, init_resume, bury_entry, bury_missing,
}
use microcosm.Master.Manager.Inv.{
  Inv, AllLive, NoneWaits, NoBurial-queued, alloc-Inv, retire-Inv, on_error-Inv, load-found,
}

record Loads (m m' : Manager) : Type 0 where
  inv : Inv m'
  same_state : m'.state ≡ m.state
  same_channel : m'.all_workers_ready ≡ m.all_workers_ready

Loads-alloc :
    (m m' : Manager) (id : String) (e : WorkerEntry) → Loads (alloc id e m) m' → Loads m m'
unfolding alloc
Loads-alloc m m' id e l = record {
  inv = l.inv;
  same_state = l.same_state;
  same_channel = l.same_channel;
}

alloc_open :
    (m : Manager) (id : String) (e : WorkerEntry)
    → is_ready m.state || m.all_workers_ready ≡ false
    → is_ready (alloc id e m).state || (alloc id e m).all_workers_ready ≡ false
unfolding alloc
alloc_open m id e n = n

load_workers-Loads :
    (persisted : Map String WorkerStatus) (m : Manager)
    → Inv m
    → is_ready m.state || m.all_workers_ready ≡ false
    → Loads m (load_workers persisted m)
unfolding load_workers
load_workers-Loads [] m v n = record { inv = v; same_state = refl; same_channel = refl }
load_workers-Loads ((id, status) ∷ rest) m v n =
    let e = new_waiting_worker_entry id (some status) in
    elim (Bool-cases (same_code status.code StatusCode.finished)) [
      | inl done ↦ rw done (load_workers-Loads rest m v n)
      | inr runs ↦ rw runs (
          Loads-alloc m _ id e (
            load_workers-Loads rest (alloc id e m) (alloc-Inv m id e (λ w. n) v)
              (alloc_open m id e n)))
    ]

no_entries :
    (heap : Map ℕ WorkerEntry) (xs : Map String ℕ) → eqb (length xs) 0 ≡ true → NoneWaits heap xs
no_entries heap [] h = tt
no_entries heap (x ∷ xs) h = absurd (ground arith)

-- Loading the persisted workers into a sound manager that is loading keeps it sound.
pub init_load-Inv :
    (loaded : Loaded) (m : Manager) → is_loading m.state ≡ true → Inv m → Inv (init_load loaded m).0
unfolding init_load
init_load-Inv (failed e) m s v = on_error-Inv m (some e) v
init_load-Inv (workers persisted) m s v =
    let open_ : m.all_workers_ready ≡ false = ground (arith, v.loaded) in
    let l = load_workers-Loads persisted m v (ground arith) in
    let v' = l.inv in
    let m' = load_workers persisted m in
    elim (Bool-cases (eqb (length m'.worker_entries) 0)) [
      | inl empty ↦ rw empty (record {
        below = v'.below;
        live = v'.live;
        awake = λ _. no_entries m'.heap m'.worker_entries empty;
        hooks = v'.hooks;
        quiet = λ n. absurd (cc);
        loaded = λ _. refl;
      })
      | inr some_wait ↦ rw some_wait (record {
        below = v'.below;
        live = v'.live;
        awake = λ c. absurd (ground (arith, l.same_channel));
        hooks = v'.hooks;
        quiet = λ _. v'.quiet (ground (arith, l.same_state));
        loaded = λ _. refl;
      })
    ]

-- It waits for a heartbeat, or has finished and is not buried.
abbrev pub is_unresolved : WorkerEntry → Bool
is_unresolved e = is_wait e.state || (is_finished e && not (is_tomb e.state))

abbrev pub unresolved_at : Map ℕ WorkerEntry → ℕ → Bool
unresolved_at heap r = elim (lookup r heap) [ none ↦ false | some e ↦ is_unresolved e ]

abbrev pub AllResolved : Map ℕ WorkerEntry → Map String ℕ → Type 0
AllResolved heap = All λ entry. unresolved_at heap entry.1 ≡ false

record Buries (m m' : Manager) : Type 0 where
  inv : Inv m'
  same_state : m'.state ≡ m.state
  same_entries : m'.worker_entries ≡ m.worker_entries
  live : (xs : Map String ℕ) → AllLive m.heap xs → AllLive m'.heap xs
  settles : (r : ℕ) → unresolved_at m.heap r ≡ false → unresolved_at m'.heap r ≡ false

Buries-trans : {l m n : Manager} → Buries l m → Buries m n → Buries l n
Buries-trans f g = record {
  inv = g.inv;
  same_state = g.same_state ∙ f.same_state;
  same_entries = g.same_entries ∙ f.same_entries;
  live = λ xs h. g.live xs (f.live xs h);
  settles = λ r h. g.settles r (f.settles r h);
}

Buries-refl : (m : Manager) → Inv m → Buries m m
Buries-refl m v = record {
  inv = v;
  same_state = refl;
  same_entries = refl;
  live = λ xs h. h;
  settles = λ r h. h;
}

dead : WorkerEntry → WorkerEntry
dead e = record e { state = tombstone }

bury-Buries :
    (m : Manager) (r : ℕ) (e : WorkerEntry)
    → Inv m
    → is_ready m.state ≡ false
    → lookup r m.heap ≡ some e
    → Buries m (store r (dead e) m)
unfolding store dead
bury-Buries m r e v n found = record {
  inv = retire-Inv m r e (dead e) found refl (NoBurial-queued r m.event_queue (v.quiet n)) v;
  same_state = refl;
  same_entries = refl;
  live = λ xs. All-mono xs (λ entry h. ground (arith, lookup-insert r entry.1 (dead e) m.heap));
  settles = λ k h. ground (arith, lookup-insert r k (dead e) m.heap);
}

abbrev Buried : Manager → Map String ℕ → Manager → Type 0
Buried m xs m' = Buries m m' × AllResolved m'.heap xs

mark_as_tombstone_lem :
    (e : WorkerEntry)
    → is_wait e.state || is_finished e ≡ true
    → mark_as_tombstone e ≡ returns (dead e)
unfolding mark_as_tombstone dead
mark_as_tombstone_lem e h = ground arith

dead_resolved :
    (m : Manager) (r : ℕ) (e : WorkerEntry) → unresolved_at (store r (dead e) m).heap r ≡ false
unfolding store dead
dead_resolved m r e = ground (arith, lookup-insert_self r (dead e) m.heap)

bury_entry_lem :
    (r : ℕ) (m : Manager) (e : WorkerEntry)
    → Inv m
    → is_ready m.state ≡ false
    → lookup r m.heap ≡ some e
    → Returns (bury_entry r m) (λ m'. Buries m m' × (unresolved_at m'.heap r ≡ false))
unfolding bury_entry
bury_entry_lem r m e v n found = elim (Bool-cases (is_wait e.state || is_finished e)) [
  | inr keeps ↦ rw (load-found r m found, keeps) (Buries-refl m v, ground arith)
  | inl dies ↦
      rw (load-found r m found, dies, mark_as_tombstone_lem e dies)
        (bury-Buries m r e v n found, dead_resolved m r e)
]

bury_missing_lem :
    (xs : Map String ℕ) (m : Manager)
    → Inv m
    → is_ready m.state ≡ false
    → AllLive m.heap xs
    → Returns (bury_missing xs m) (Buried m xs)
unfolding bury_missing
bury_missing_lem [] m v n l = (Buries-refl m v, tt)
bury_missing_lem ((id, r) ∷ xs) m v n l =
    let (e, found) = has-some (lookup r m.heap) l.0 in
    Returns-bind (λ m'. Buries m m' × (unresolved_at m'.heap r ≡ false)) (Buried m ((id, r) ∷ xs))
      (bury_entry r m) (bury_missing xs) (bury_entry_lem r m e v n found)
      (λ m1 (d, s).
        Returns-mono (Buried m1 xs) (Buried m ((id, r) ∷ xs)) (bury_missing xs m1)
          (bury_missing_lem xs m1 d.inv (ground (arith, d.same_state)) (d.live xs l.1))
          (λ m' (b, t). (Buries-trans d b, (b.settles r s, t))))

resolved_awake :
    (heap : Map ℕ WorkerEntry) (xs : Map String ℕ) → AllResolved heap xs → NoneWaits heap xs
resolved_awake heap xs = All-mono xs (λ entry h. ground arith)

-- On a sound manager that waits for heartbeats, the end of InitAfterRecover does not panic and makes
-- the manager ready and sound: no worker is left that sent no heartbeat, and every worker that has
-- finished is buried.
pub init_resume_resolves :
    (m : Manager)
    → Inv m
    → is_waiting m.state ≡ true
    → Returns
        (init_resume m)
        (λ m'. Inv m' × (m'.state ≡ ready) × AllResolved m'.heap m'.worker_entries)
unfolding init_resume
init_resume_resolves m v w =
    Returns-bind (Buried m m.worker_entries) _ (bury_missing m.worker_entries m) _
      (bury_missing_lem m.worker_entries m v (ground arith) v.live)
      (λ m' (b, s).
        let v' = b.inv in
        let s' = subst (AllResolved m'.heap) (sym b.same_entries) s in
        (
          record {
            below = v'.below;
            live = v'.live;
            awake = λ _. resolved_awake m'.heap m'.worker_entries s';
            hooks = v'.hooks;
            quiet = λ n. absurd (cc);
            loaded = λ _. refl;
          },
          refl,
          s',
        ))
