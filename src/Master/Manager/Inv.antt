-- ===== src/Master/Manager/Inv.antt =====
-- What holds of a worker manager between two steps.
use microcosm.Base.{
  ℕ, suc, ◌<◌, String, Bool, true, false, ◌||◌, none, some, Option, List, [], ◌∷◌, ◌++◌, ◌≡◌, refl,
  inl, inr, Map, arith, lookup, insert, has, All, All-mono, lookup-insert, lookup-insert_self,
  Bool-cases, Option-cases, length, ltb, has-some, returns, lookup-All, insert-All, ℕ_eq, String_eq,
  eqb, eqb_iff,
}
use microcosm.Master.Entry.{WorkerEntry, EntryState, is_wait, is_offline}
use microcosm.Master.Manager.{
  Manager, MasterEvent, BeforeHook, no_hook, delete_entry, write_status, bury, is_ready, is_loading,
  load, store, alloc, enqueue_or_report, enqueue_event, on_error, event_queue_size, MasterError,
  new_worker_manager,
}

abbrev pub test_at : (EntryState → Bool) → Option WorkerEntry → Bool
test_at p none = false
test_at p (some e) = p e.state

abbrev pub waits_at : Map ℕ WorkerEntry → ℕ → Bool
waits_at heap r = test_at is_wait (lookup r heap)

abbrev pub offline_at : Map ℕ WorkerEntry → ℕ → Bool
offline_at heap r = test_at is_offline (lookup r heap)

abbrev buries : ℕ → BeforeHook → Bool
buries r (bury k) = eqb r k
buries r _ = false

abbrev pub is_burial : BeforeHook → Bool
is_burial (bury k) = true
is_burial _ = false

abbrev pub NoBurial : List MasterEvent → Type 0
NoBurial = All λ ev. is_burial ev.before_hook ≡ false

-- Is a hook queued that will bury the entry?
abbrev pub burial_queued : ℕ → List MasterEvent → Bool
burial_queued r [] = false
burial_queued r (ev ∷ q) = buries r ev.before_hook || burial_queued r q

-- A hook finds its entry, and the entry that it buries is offline and is buried by no later event.
abbrev pub HookFits : Map ℕ WorkerEntry → List MasterEvent → BeforeHook → Type 0
HookFits heap later no_hook = Unit
HookFits heap later (delete_entry id) = Unit
HookFits heap later (write_status r s) = has r heap ≡ true
HookFits heap later (bury r) = (offline_at heap r ≡ true) × (burial_queued r later ≡ false)

abbrev pub HooksFit : Map ℕ WorkerEntry → List MasterEvent → Type 0
HooksFit heap [] = Unit
HooksFit heap (ev ∷ q) = HookFits heap q ev.before_hook × HooksFit heap q

abbrev pub AllLive : Map ℕ WorkerEntry → Map String ℕ → Type 0
AllLive heap = All λ entry. has entry.1 heap ≡ true

abbrev pub NoneWaits : Map ℕ WorkerEntry → Map String ℕ → Type 0
NoneWaits heap = All λ entry. waits_at heap entry.1 ≡ false

pub record Inv (m : Manager) : Type 0 where
  pub below : All (λ entry. entry.0 < m.next_ref) m.heap
  pub live : AllLive m.heap m.worker_entries
  pub awake : (is_ready m.state || m.all_workers_ready) ≡ true → NoneWaits m.heap m.worker_entries
  pub hooks : HooksFit m.heap m.event_queue
  pub quiet : is_ready m.state ≡ false → NoBurial m.event_queue
  pub loaded : m.all_workers_ready ≡ true → is_loading m.state ≡ false

-- A write that a step makes: it keeps an offline entry offline, and makes no entry wait.
pub record Writes (e f : WorkerEntry) : Type 0 where
  pub stays_offline : is_offline e.state ≡ true → is_offline f.state ≡ true
  pub no_new_wait : is_wait f.state ≡ true → is_wait e.state ≡ true

module _ (heap : Map ℕ WorkerEntry) (r : ℕ) (e f : WorkerEntry) (found : lookup r heap ≡ some e)
    (w : Writes e f) where
  pub AllLive-write : (xs : Map String ℕ) → AllLive heap xs → AllLive (insert r f heap) xs
  AllLive-write xs = All-mono xs (λ entry h. ground (arith, lookup-insert r entry.1 f heap))

  pub NoneWaits-write : (xs : Map String ℕ) → NoneWaits heap xs → NoneWaits (insert r f heap) xs
  NoneWaits-write xs =
      All-mono xs λ entry h. ground (arith, lookup-insert r entry.1 f heap, eqb_iff r entry.1)

  HookFits-write :
      (q : List MasterEvent) (hook : BeforeHook)
      → HookFits heap q hook
      → HookFits (insert r f heap) q hook
  HookFits-write q no_hook h = tt
  HookFits-write q (delete_entry id) h = tt
  HookFits-write q (write_status k s) h = ground (arith, lookup-insert r k f heap)
  HookFits-write q (bury k) h = ground (arith, lookup-insert r k f heap, eqb_iff r k)

  pub HooksFit-write : (q : List MasterEvent) → HooksFit heap q → HooksFit (insert r f heap) q
  HooksFit-write [] h = tt
  HooksFit-write (ev ∷ q) h = (HookFits-write q ev.before_hook h.0, HooksFit-write q h.1)

pub store-Inv :
    (m : Manager) (r : ℕ) (e f : WorkerEntry)
    → lookup r m.heap ≡ some e
    → Writes e f
    → Inv m
    → Inv (store r f m)
unfolding store
store-Inv m r e f found w v = record {
  below =
      insert-All (λ entry. entry.0 < m.next_ref) r f m.heap
        (lookup-All (λ entry. entry.0 < m.next_ref) r m.heap e found v.below) v.below;
  live = AllLive-write m.heap r e f found w m.worker_entries v.live;
  awake = λ s. NoneWaits-write m.heap r e f found w m.worker_entries (v.awake s);
  hooks = HooksFit-write m.heap r e f found w m.event_queue v.hooks;
  quiet = v.quiet;
  loaded = v.loaded;
}

buries-fits :
    (heap : Map ℕ WorkerEntry) (r : ℕ) (q : List MasterEvent) (hook : BeforeHook)
    → HookFits heap q hook
    → offline_at heap r ≡ false
    → buries r hook ≡ false
buries-fits heap r q (bury k) h o = ground (arith, eqb_iff r k)
buries-fits heap r q _ h o = refl

-- Only an offline entry has a burial queued.
pub not_queued :
    (heap : Map ℕ WorkerEntry) (r : ℕ) (q : List MasterEvent)
    → HooksFit heap q
    → offline_at heap r ≡ false
    → burial_queued r q ≡ false
not_queued heap r [] h o = refl
not_queued heap r (ev ∷ q) h o =
    ground (arith, buries-fits heap r q ev.before_hook h.0 o, not_queued heap r q h.1 o)

-- A new reference is not on the heap yet.
fresh : (heap : Map ℕ WorkerEntry) (n : ℕ) → All (λ entry. entry.0 < n) heap → lookup n heap ≡ none
unfolding lookup
fresh [] n h = refl
fresh ((r, e) ∷ heap) n h = ground (arith, eqb_iff r n, fresh heap n h.1)

module _ (heap : Map ℕ WorkerEntry) (n : ℕ) (e : WorkerEntry) (new : lookup n heap ≡ none) where
  AllLive-alloc : (xs : Map String ℕ) → AllLive heap xs → AllLive (insert n e heap) xs
  AllLive-alloc xs = All-mono xs (λ entry h. ground (arith, lookup-insert n entry.1 e heap))

  NoneWaits-alloc :
      (xs : Map String ℕ) → AllLive heap xs → NoneWaits heap xs → NoneWaits (insert n e heap) xs
  NoneWaits-alloc [] l h = tt
  NoneWaits-alloc ((id, r) ∷ xs) l h =
      (ground (arith, lookup-insert n r e heap, eqb_iff n r), NoneWaits-alloc xs l.1 h.1)

  HookFits-alloc :
      (q : List MasterEvent) (hook : BeforeHook)
      → HookFits heap q hook
      → HookFits (insert n e heap) q hook
  HookFits-alloc q no_hook h = tt
  HookFits-alloc q (delete_entry id) h = tt
  HookFits-alloc q (write_status k s) h = ground (arith, lookup-insert n k e heap)
  HookFits-alloc q (bury k) h = ground (arith, lookup-insert n k e heap, eqb_iff n k)

  HooksFit-alloc : (q : List MasterEvent) → HooksFit heap q → HooksFit (insert n e heap) q
  HooksFit-alloc [] h = tt
  HooksFit-alloc (ev ∷ q) h = (HookFits-alloc q ev.before_hook h.0, HooksFit-alloc q h.1)

pub alloc-Inv :
    (m : Manager) (id : String) (e : WorkerEntry)
    → (is_wait e.state ≡ true → is_ready m.state || m.all_workers_ready ≡ false)
    → Inv m
    → Inv (alloc id e m)
unfolding alloc
alloc-Inv m id e busy v = record {
  below =
      insert-All (λ entry. entry.0 < suc m.next_ref) m.next_ref e m.heap (omega arith)
        (All-mono m.heap (λ entry h. omega arith) v.below);
  live =
      insert-All (λ entry. has entry.1 (insert m.next_ref e m.heap) ≡ true) id m.next_ref
        m.worker_entries (ground (arith, lookup-insert_self m.next_ref e m.heap))
        (AllLive-alloc m.heap m.next_ref e new m.worker_entries v.live);
  awake = λ s.
      insert-All (λ entry. waits_at (insert m.next_ref e m.heap) entry.1 ≡ false) id m.next_ref
        m.worker_entries (ground (arith, lookup-insert_self m.next_ref e m.heap))
        (NoneWaits-alloc m.heap m.next_ref e new m.worker_entries v.live (v.awake s));
  hooks = HooksFit-alloc m.heap m.next_ref e new m.event_queue v.hooks;
  quiet = v.quiet;
  loaded = v.loaded;
}
  where
    new : lookup m.next_ref m.heap ≡ none
    new = fresh m.heap m.next_ref v.below

HookFits-earlier :
    (heap : Map ℕ WorkerEntry) (ev : MasterEvent) (q : List MasterEvent) (hook : BeforeHook)
    → HookFits heap (ev ∷ q) hook
    → HookFits heap q hook
HookFits-earlier heap ev q no_hook h = tt
HookFits-earlier heap ev q (delete_entry id) h = tt
HookFits-earlier heap ev q (write_status r s) h = h
HookFits-earlier heap ev q (bury r) h = ground arith

burial_queued-append :
    (r : ℕ) (q : List MasterEvent) (ev : MasterEvent)
    → burial_queued r (q ++ ev ∷ []) ≡ (burial_queued r q || buries r ev.before_hook)
burial_queued-append r [] ev = ground arith
burial_queued-append r (x ∷ q) ev = ground (arith, burial_queued-append r q ev)

unburied :
    (heap : Map ℕ WorkerEntry) (k : ℕ) (x : MasterEvent) (q : List MasterEvent) (hook : BeforeHook)
    → HookFits heap (x ∷ q) hook
    → x.before_hook ≡ bury k
    → buries k hook ≡ false
unburied heap k x q (bury r) h e = ground (arith, eqb_iff k r, eqb_iff r k)
unburied heap k x q _ h e = refl

HookFits-append :
    (heap : Map ℕ WorkerEntry) (x : MasterEvent) (q : List MasterEvent) (ev : MasterEvent)
    (hook : BeforeHook)
    → HookFits heap (x ∷ q) ev.before_hook
    → x.before_hook ≡ hook
    → HookFits heap q hook
    → HookFits heap (q ++ ev ∷ []) hook
HookFits-append heap x q ev no_hook f e h = tt
HookFits-append heap x q ev (delete_entry id) f e h = tt
HookFits-append heap x q ev (write_status r s) f e h = h
HookFits-append heap x q ev (bury k) f e h =
    ground (arith, burial_queued-append k q ev, unburied heap k x q ev.before_hook f e)

HooksFit-append :
    (heap : Map ℕ WorkerEntry) (q : List MasterEvent) (ev : MasterEvent)
    → HooksFit heap q
    → HookFits heap q ev.before_hook
    → HooksFit heap (q ++ ev ∷ [])
HooksFit-append heap [] ev h f = (f, tt)
HooksFit-append heap (x ∷ q) ev h f = (
  HookFits-append heap x q ev x.before_hook f refl h.0,
  HooksFit-append heap q ev h.1 (HookFits-earlier heap x q ev.before_hook f),
)

NoBurial-append :
    (q : List MasterEvent) (ev : MasterEvent)
    → NoBurial q
    → is_burial ev.before_hook ≡ false
    → NoBurial (q ++ ev ∷ [])
NoBurial-append [] ev h b = (b, tt)
NoBurial-append (x ∷ q) ev h b = (h.0, NoBurial-append q ev h.1 b)

pub enqueue_event-Inv :
    (m : Manager) (ev : MasterEvent)
    → HookFits m.heap m.event_queue ev.before_hook
    → (is_ready m.state ≡ false → is_burial ev.before_hook ≡ false)
    → Inv m
    → Inv (enqueue_event ev m).0
unfolding enqueue_event
enqueue_event-Inv m ev f b v = elim (Bool-cases (ltb (length m.event_queue) event_queue_size)) [
  | inl room ↦ rw room (record {
    below = v.below;
    live = v.live;
    awake = v.awake;
    hooks = HooksFit-append m.heap m.event_queue ev v.hooks f;
    quiet = λ n. NoBurial-append m.event_queue ev (v.quiet n) (b n);
    loaded = v.loaded;
  })
  | inr full ↦ rw full v
]

pub on_error-Inv : (m : Manager) (e : Option MasterError) → Inv m → Inv (on_error e m)
unfolding on_error
on_error-Inv m e v = elim (Option-cases m.err_center) [
  | inl q ↦
      rw (q, on_error)
        (record {
          below = v.below;
          live = v.live;
          awake = v.awake;
          hooks = v.hooks;
          quiet = v.quiet;
          loaded = v.loaded;
        })
  | inr (x, q) ↦ rw (q, on_error) v
]

pub enqueue_or_report-Inv :
    (m : Manager) (ev : MasterEvent)
    → HookFits m.heap m.event_queue ev.before_hook
    → is_burial ev.before_hook ≡ false
    → Inv m
    → Inv (enqueue_or_report ev m)
unfolding enqueue_or_report
enqueue_or_report-Inv m ev f b v =
    on_error-Inv (enqueue_event ev m).0 (enqueue_event ev m).1 (enqueue_event-Inv m ev f (λ n. b) v)

-- The reference of a known worker can be read.
pub live-lookup :
    (m : Manager) (id : String) (r : ℕ)
    → Inv m
    → lookup id m.worker_entries ≡ some r
    → (e : WorkerEntry) × (lookup r m.heap ≡ some e)
live-lookup m id r v q =
    has-some _ (lookup-All (λ entry. has entry.1 m.heap ≡ true) id m.worker_entries r q v.live)

pub new_worker_manager-Inv :
    (epoch : ℕ) (is_init : Bool) (timeout graceful : ℕ)
    → Inv (new_worker_manager epoch is_init timeout graceful)
unfolding new_worker_manager
new_worker_manager-Inv epoch is_init timeout graceful = record {
  below = tt;
  live = tt;
  awake = λ s. tt;
  hooks = tt;
  quiet = λ s. tt;
  loaded = λ s. absurd (cc);
}

pub load-found :
    (r : ℕ) (m : Manager) {e : WorkerEntry} → lookup r m.heap ≡ some e → load r m ≡ returns e
unfolding load
load-found r m q = rw (q, load)

HookFits-retire :
    (heap : Map ℕ WorkerEntry) (r : ℕ) (f : WorkerEntry) (q : List MasterEvent) (hook : BeforeHook)
    → buries r hook ≡ false
    → HookFits heap q hook
    → HookFits (insert r f heap) q hook
HookFits-retire heap r f q no_hook b h = tt
HookFits-retire heap r f q (delete_entry id) b h = tt
HookFits-retire heap r f q (write_status k s) b h = ground (arith, lookup-insert r k f heap)
HookFits-retire heap r f q (bury k) b h = ground (arith, lookup-insert r k f heap)

HooksFit-retire :
    (heap : Map ℕ WorkerEntry) (r : ℕ) (f : WorkerEntry) (q : List MasterEvent)
    → burial_queued r q ≡ false
    → HooksFit heap q
    → HooksFit (insert r f heap) q
HooksFit-retire heap r f [] b h = tt
HooksFit-retire heap r f (ev ∷ q) b h = (
  HookFits-retire heap r f q ev.before_hook (ground arith) h.0,
  HooksFit-retire heap r f q (ground arith) h.1,
)

-- A write to an entry that no queued event buries.
pub retire-Inv :
    (m : Manager) (r : ℕ) (e f : WorkerEntry)
    → lookup r m.heap ≡ some e
    → is_wait f.state ≡ false
    → burial_queued r m.event_queue ≡ false
    → Inv m
    → Inv (store r f m)
unfolding store
retire-Inv m r e f found awake b v = record {
  below =
      insert-All (λ entry. entry.0 < m.next_ref) r f m.heap
        (lookup-All (λ entry. entry.0 < m.next_ref) r m.heap e found v.below) v.below;
  live =
      All-mono m.worker_entries (λ entry h. ground (arith, lookup-insert r entry.1 f m.heap))
        v.live;
  awake = λ s.
      All-mono m.worker_entries (λ entry h. ground (arith, lookup-insert r entry.1 f m.heap))
        (v.awake s);
  hooks = HooksFit-retire m.heap r f m.event_queue b v.hooks;
  quiet = v.quiet;
  loaded = v.loaded;
}

pub NoBurial-queued : (r : ℕ) (q : List MasterEvent) → NoBurial q → burial_queued r q ≡ false
NoBurial-queued r [] h = refl
NoBurial-queued r (ev ∷ q) h =
    ground (arith, no_burial r ev.before_hook h.0, NoBurial-queued r q h.1)
  where
    no_burial : (r : ℕ) (hook : BeforeHook) → is_burial hook ≡ false → buries r hook ≡ false
    no_burial r (bury k) h = cc
    no_burial r _ h = refl
