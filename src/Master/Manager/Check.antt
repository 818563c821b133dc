-- ===== src/Master/Manager/Check.antt =====
-- checkWorkerEntriesOnce, which looks for workers whose lease has ended.
use microcosm.Base.{
  ℕ, String, Bool, true, false, ◌||◌, ◌&&◌, not, none, some, Option, [], ◌∷◌, ◌≡◌, refl, inl, inr,
  Map, arith, lookup, insert, All, lookup-insert, lookup-insert_self, ltb, eqb, eqb_iff, subst, sym,
  ℕ_eq, String_eq, ◌∙◌, returns, Returns, Returns-bind, Returns-mono, Bool-cases, has-some,
}
use microcosm.Master.Entry.{WorkerEntry, offline, is_wait, is_offline, is_tomb, mark_as_offline}
use microcosm.Master.Manager.{
  Manager, MasterEvent, MasterError, is_ready, store, enqueue_event, offline_event,
  should_go_offline, check_entry, check_from, check_worker_entries_once,
}
use microcosm.Master.Manager.Inv.{
  Inv, Writes, AllLive, NoneWaits, AllLive-write, NoneWaits-write, store-Inv, enqueue_event-Inv,
  load-found, not_queued,
}

gone : WorkerEntry → WorkerEntry
gone e = record e { state = offline }

mark_as_offline_lem :
    (e : WorkerEntry)
    → is_wait e.state ≡ false
    → is_offline e.state || is_tomb e.state ≡ false
    → mark_as_offline e ≡ returns (gone e)
unfolding mark_as_offline gone
mark_as_offline_lem e w d = ground arith

gone-Writes : (e : WorkerEntry) → Writes e (gone e)
unfolding gone
gone-Writes e = ground arith

-- Its lease has ended, or it has finished, and nobody has noticed.
abbrev pub is_overdue : ℕ → WorkerEntry → Bool
is_overdue now e =
    not (is_offline e.state || is_tomb e.state) && (ltb e.expire_at now || e.received_finish)

abbrev pub overdue_at : ℕ → Map ℕ WorkerEntry → ℕ → Bool
overdue_at now heap r = elim (lookup r heap) [ none ↦ false | some e ↦ is_overdue now e ]

-- What a round of the loop does to the rest of the manager.
record Follows (now : ℕ) (m m' : Manager) : Type 0 where
  inv : Inv m'
  same_state : m'.state ≡ m.state
  same_entries : m'.worker_entries ≡ m.worker_entries
  live : (xs : Map String ℕ) → AllLive m.heap xs → AllLive m'.heap xs
  awake : (xs : Map String ℕ) → NoneWaits m.heap xs → NoneWaits m'.heap xs
  settles : (r : ℕ) → overdue_at now m.heap r ≡ false → overdue_at now m'.heap r ≡ false
  spares : (r : ℕ) → overdue_at now m.heap r ≡ false → lookup r m'.heap ≡ lookup r m.heap

Follows-trans : {now : ℕ} {l m n : Manager} → Follows now l m → Follows now m n → Follows now l n
Follows-trans f g = record {
  inv = g.inv;
  same_state = g.same_state ∙ f.same_state;
  same_entries = g.same_entries ∙ f.same_entries;
  live = λ xs h. g.live xs (f.live xs h);
  awake = λ xs h. g.awake xs (f.awake xs h);
  settles = λ r h. g.settles r (f.settles r h);
  spares = λ r h. g.spares r (f.settles r h) ∙ f.spares r h;
}

Follows-refl : {now : ℕ} {m : Manager} → Inv m → Follows now m m
Follows-refl v = record {
  inv = v;
  same_state = refl;
  same_entries = refl;
  live = λ xs h. h;
  awake = λ xs h. h;
  settles = λ r h. h;
  spares = λ r h. refl;
}

overdue-gone :
    (now : ℕ) (heap : Map ℕ WorkerEntry) (r k : ℕ) (e : WorkerEntry)
    → overdue_at now heap k ≡ false
    → overdue_at now (insert r (gone e) heap) k ≡ false
unfolding gone
overdue-gone now heap r k e h = ground (arith, lookup-insert r k (gone e) heap)

heap-enqueue_event :
    (ev : MasterEvent) (m : Manager)
    → ((enqueue_event ev m).0.heap ≡ m.heap)
      × ((enqueue_event ev m).0.state ≡ m.state)
      × ((enqueue_event ev m).0.worker_entries ≡ m.worker_entries)
unfolding enqueue_event
heap-enqueue_event ev m = ground arith

module _ (now : ℕ) (id : String) (r : ℕ) (m : Manager) (v : Inv m) (e : WorkerEntry)
    (found : lookup r m.heap ≡ some e) (awake : is_wait e.state ≡ false)
    (is_up : is_ready m.state ≡ true) where
  noticed : Manager × Option MasterError
  noticed = enqueue_event (offline_event id r (gone e)) (store r (gone e) m)

  -- The other entries that are not overdue stay as they are.
  spared :
      is_overdue now e ≡ true
      → (k : ℕ) → overdue_at now m.heap k ≡ false
      → lookup k (insert r (gone e) m.heap) ≡ lookup k m.heap
  spared late k h = elim (Bool-cases (eqb r k)) [
    | inl same ↦
        let here : overdue_at now m.heap r ≡ false =
          subst (λ x. overdue_at now m.heap x ≡ false) (sym ((eqb_iff r k).0 same)) h in
        absurd (ground (arith, found, here, late))
    | inr other ↦ ground (arith, lookup-insert r k (gone e) m.heap, other)
  ]

  noticed-Follows :
      is_overdue now e ≡ true
      → is_offline e.state || is_tomb e.state ≡ false
      → Follows now m noticed.0
  unfolding noticed store
  noticed-Follows late alive = record {
    inv =
        enqueue_event-Inv (store r (gone e) m) (offline_event id r (gone e))
          (
            unfold gone in ground (arith, lookup-insert_self r (gone e) m.heap),
            not_queued m.heap r m.event_queue v.hooks (ground arith),
          )
          (λ n. absurd (cc)) (store-Inv m r e (gone e) found (gone-Writes e) v);
    same_state = (heap-enqueue_event (offline_event id r (gone e)) (store r (gone e) m)).1;
    same_entries = (heap-enqueue_event (offline_event id r (gone e)) (store r (gone e) m)).2;
    live = λ xs h.
        rw (heap-enqueue_event (offline_event id r (gone e)) (store r (gone e) m)).0
          (AllLive-write m.heap r e (gone e) found (gone-Writes e) xs h);
    awake = λ xs h.
        rw (heap-enqueue_event (offline_event id r (gone e)) (store r (gone e) m)).0
          (NoneWaits-write m.heap r e (gone e) found (gone-Writes e) xs h);
    settles = λ k h.
        rw (heap-enqueue_event (offline_event id r (gone e)) (store r (gone e) m)).0
          (overdue-gone now m.heap r k e h);
    spares = λ k h.
        rw (heap-enqueue_event (offline_event id r (gone e)) (store r (gone e) m)).0
          (spared late k h);
  }

  noticed_settled : overdue_at now noticed.0.heap r ≡ false
  unfolding noticed store gone
  noticed_settled =
      rw (heap-enqueue_event (offline_event id r (gone e)) (store r (gone e) m)).0
        (ground (arith, lookup-insert_self r (gone e) m.heap))

  -- A round of the loop does not panic, and leaves its entry settled.
  check_entry_lem :
      Returns
        (check_entry now id r m)
        (λ (m', x). Follows now m m' × (overdue_at now m'.heap r ≡ false))
  unfolding check_entry
  check_entry_lem =
      elim (Bool-cases (is_offline e.state || is_tomb e.state || not (should_go_offline now e))) [
        | inl skips ↦ rw (load-found r m found, skips) (Follows-refl v, ground arith)
        | inr goes ↦
            let late : is_overdue now e ≡ true = ground (arith, goes) in
            let alive : is_offline e.state || is_tomb e.state ≡ false = ground arith in
            rw (load-found r m found, goes, mark_as_offline_lem e awake alive)
              (unfold noticed in (noticed-Follows late alive, noticed_settled))
      ]

abbrev pub AllSettled : ℕ → Map ℕ WorkerEntry → Map String ℕ → Type 0
AllSettled now heap = All λ entry. overdue_at now heap entry.1 ≡ false

abbrev Checked : ℕ → Manager → Map String ℕ → Manager × Option MasterError → Type 0
Checked now m xs (m', x) = Follows now m m' × (x ≡ none → AllSettled now m'.heap xs)

check_from_lem :
    (now : ℕ) (xs : Map String ℕ) (m : Manager)
    → Inv m
    → is_ready m.state ≡ true
    → AllLive m.heap xs
    → NoneWaits m.heap xs
    → Returns (check_from now xs m) (Checked now m xs)
unfolding check_from
check_from_lem now [] m v u l a = (Follows-refl v, λ _. tt)
check_from_lem now ((id, r) ∷ xs) m v u l a =
    let (e, found) = has-some (lookup r m.heap) l.0 in
    Returns-bind (λ (m', x). Follows now m m' × (overdue_at now m'.heap r ≡ false))
      (Checked now m ((id, r) ∷ xs)) (check_entry now id r m) _
      (check_entry_lem now id r m v e found (ground arith) u)
      (λ (m', x) (f, s). rest m' x f s (
        check_from_lem now xs m' f.inv (ground (arith, f.same_state)) (f.live xs l.1)
          (f.awake xs a.1)))
  where
    rest :
        (m' : Manager) (x : Option MasterError)
        → Follows now m m'
        → overdue_at now m'.heap r ≡ false
        → Returns (check_from now xs m') (Checked now m' xs)
        → Returns
            (elim x [ none ↦ check_from now xs m' | some err ↦ returns (m', some err) ])
            (Checked now m ((id, r) ∷ xs))
    rest m' (some err) f s h = (f, λ q. absurd (cc))
    rest m' none f s h =
        Returns-mono (Checked now m' xs) (Checked now m ((id, r) ∷ xs)) (check_from now xs m') h
          (λ (m'', y) (g, t). (Follows-trans f g, λ q. (g.settles r s, t q)))

-- On a sound manager that is ready the check does not panic and keeps it sound, and every worker entry
-- stays as it is that is not overdue: one whose lease has not ended, which has not finished, or which is
-- offline or a tombstone. If the check meets no full queue, then no worker is left that is overdue.
pub check_worker_entries_once_settles :
    (now : ℕ) (m : Manager)
    → Inv m
    → is_ready m.state ≡ true
    → Returns (check_worker_entries_once now m) (λ (m', x).
      Inv m'
      × (m'.worker_entries ≡ m.worker_entries)
      × ((r : ℕ) → overdue_at now m.heap r ≡ false → lookup r m'.heap ≡ lookup r m.heap)
      × (x ≡ none → AllSettled now m'.heap m'.worker_entries))
unfolding check_worker_entries_once
check_worker_entries_once_settles now m v r = rw r (
    Returns-mono (Checked now m m.worker_entries) _ (check_from now m.worker_entries m)
      (check_from_lem now m.worker_entries m v r v.live (v.awake (ground arith)))
      (λ (m', x) (f, s). (f.inv, f.same_entries, f.spares, λ q. rw f.same_entries (s q))))
