-- ===== src/Worker/Lease/Inv.antt =====
-- What holds of a worker and its master between two steps.
use microcosm.Base.{
  ℕ, ◌+◌, ◌≤◌, String, Bool, false, Option, none, some, List, [], ◌∷◌, ◌≡◌, refl, subst, sym, ◌⊎◌,
  inl, inr, arith, All, All-mono, lookup, lookup-insert_self, ℕ_eq, String_eq, returns, Returns,
}
use mathlib.Core.Option
use microcosm.Master.Entry.{is_wait, mark_as_online, mark_as_offline, set_expire_time, set_finished}
use microcosm.Master.Manager.{
  Manager, ready, HeartbeatPing, handle_heartbeat, check_entry, MasterError, load, store,
  check_master_epoch_match, first_heartbeat, enqueue_or_report, enqueue_event, on_error,
}
use microcosm.Worker.Timeouts.{TimeoutConfig}
use microcosm.Worker.MasterClient.{
  MasterInfo, loaded, HeartbeatPong, handle_pong, accept, check_master_timeout, refresh_master_info,
  Ping, heartbeat_message,
}
use microcosm.Worker.Lease.{
  System, Step, time_passes, pings_master, sends_pong, renews_lease, hears_pong, watches_master,
  checks_worker, Reach, here, next, IsIn, first, later, received, pong_of,
}

-- The manager is ready, it knows the worker, which is not one that it waits for after a recovery, and
-- the worker's lease ends at `t`.
abbrev pub Holds : String → ℕ → ℕ → ℕ → ℕ → Manager → Type 0
Holds id r t epoch length m =
    (m.state ≡ ready)
    × (m.epoch ≡ epoch)
    × (m.worker_timeout + m.worker_timeout_graceful ≡ length)
    × (lookup id m.worker_entries ≡ some r)
    × (Option.map (λ e. e.expire_at) (lookup r m.heap) ≡ some t)
    × (Option.map (λ e. is_wait e.state) (lookup r m.heap) ≡ some false)

handle_heartbeat-Holds :
    (now : ℕ) (msg : HeartbeatPing) (node id : String) (r t epoch length : ℕ) (m : Manager)
    → msg.from_worker_id ≡ id
    → Holds id r t epoch length m
    → msg.epoch ≡ epoch
    → Returns (handle_heartbeat now msg node m) (Holds id r (now + length) epoch length)
unfolding handle_heartbeat check_master_epoch_match first_heartbeat load store mark_as_online
    set_expire_time set_finished enqueue_or_report enqueue_event on_error
handle_heartbeat-Holds now msg node id r t epoch length m own h same =
    grind (arith, lookup-insert_self)

check_entry-Holds :
    (now : ℕ) (id : String) (r t epoch length : ℕ) (m : Manager)
    → Holds id r t epoch length m
    → Returns (check_entry now id r m) (λ (m', x). Holds id r t epoch length m')
unfolding check_entry load store mark_as_offline enqueue_event
check_entry-Holds now id r t epoch length m h = grind (arith, lookup-insert_self)

-- Covered at `t`: the lease lasts from then for its length, or the ping of that time is being handled.
abbrev pub Covers : ℕ → ℕ → Option Ping → ℕ → Type 0
Covers length expire half t = (t + length ≤ expire) ⊎ (Option.map (λ p. p.send_time) half ≡ some t)

abbrev pub IsPast : ℕ → String → ℕ → Ping → Type 0
IsPast now id epoch p = (p.send_time ≤ now) × (p.from_worker_id ≡ id) × (p.epoch ≡ epoch)

-- What holds of the two between two steps; `expire` is when the lease ends.
pub record IsSafe (id : String) (r epoch length : ℕ) (config : TimeoutConfig) (s : System)
    : Type 0 where
  pub expire : ℕ
  pub holds : Holds id r expire epoch length s.manager
  pub client_id : s.client.worker_id ≡ id
  pub client_epoch : s.client.master_epoch ≡ epoch
  pub client_config : s.client.timeout_config ≡ config
  pub acked : Covers length expire s.half_handled s.client.last_master_acked_ping_time
  pub acked_past : s.client.last_master_acked_ping_time ≤ s.now
  pub pings : All (IsPast s.now id epoch) s.pings
  pub half : (p : Ping) → s.half_handled ≡ some p → IsPast s.now id epoch p
  pub pongs :
      All
        (λ q.
          (q.epoch ≡ epoch)
          × (q.send_time ≤ s.now)
          × Covers length expire s.half_handled q.send_time)
        s.pongs

IsIn-All : {A : Type 0} (P : A → Type 0) (x : A) (xs : List A) → IsIn x xs → All P xs → P x
IsIn-All P x [] i h = elim i [ ]
IsIn-All P x (_ ∷ xs) (first _) h = h.0
IsIn-All P x (y ∷ xs) (later _ _ i) h = IsIn-All P x xs i h.1

module _ (id : String) (r epoch length : ℕ) (config : TimeoutConfig) (s : System)
    (v : IsSafe id r epoch length config s) where
  time_passes-IsSafe : (d : ℕ) → IsSafe id r epoch length config (record s { now = s.now + d })
  time_passes-IsSafe d = record {
    expire = v.expire;
    holds = v.holds;
    client_id = v.client_id;
    client_epoch = v.client_epoch;
    client_config = v.client_config;
    acked = v.acked;
    acked_past = omega (arith, v.acked_past);
    pings = All-mono s.pings (λ p h. (omega (arith, h.0), h.1, h.2)) v.pings;
    half = λ p q. let h = v.half p q in (omega (arith, h.0), h.1, h.2);
    pongs = All-mono s.pongs (λ q h. (h.0, omega (arith, h.1), h.2)) v.pongs;
  }

  pings_master-IsSafe :
      (b : Bool)
      → IsSafe id r epoch length config
          (record s { pings = heartbeat_message s.now b s.client ∷ s.pings })
  unfolding heartbeat_message
  pings_master-IsSafe b = record {
    expire = v.expire;
    holds = v.holds;
    client_id = v.client_id;
    client_epoch = v.client_epoch;
    client_config = v.client_config;
    acked = v.acked;
    acked_past = v.acked_past;
    pings = ((omega arith, v.client_id, v.client_epoch), v.pings);
    half = v.half;
    pongs = v.pongs;
  }

  sends_pong-IsSafe :
      (p : Ping)
      → IsIn p s.pings
      → s.half_handled ≡ none
      → IsSafe id r epoch length config
          (record s { pongs = pong_of p s.manager ∷ s.pongs; half_handled = some p })
  sends_pong-IsSafe p i idle =
      let past = IsIn-All (IsPast s.now id epoch) p s.pings i v.pings in
      record {
        expire = v.expire;
        holds = v.holds;
        client_id = v.client_id;
        client_epoch = v.client_epoch;
        client_config = v.client_config;
        acked = ground (arith, v.acked);
        acked_past = v.acked_past;
        pings = v.pings;
        half = λ p' q. let e : p ≡ p' = cc in subst (IsPast s.now id epoch) e past;
        pongs = (
          (v.holds.1, past.0, inr refl),
          All-mono s.pongs (λ q h. (h.0, h.1, ground arith)) v.pongs,
        );
      }

  renews_lease-IsSafe :
      (p : Ping) (node : String) (m : Manager)
      → s.half_handled ≡ some p
      → handle_heartbeat s.now (received p) node s.manager ≡ returns m
      → IsSafe id r epoch length config (record s { manager = m; half_handled = none })
  renews_lease-IsSafe p node m q e =
      let (past, own, same) = v.half p q in
      let held : Holds id r (s.now + length) epoch length m =
        subst (λ o. Returns o (Holds id r (s.now + length) epoch length)) e
          (handle_heartbeat-Holds s.now (received p) node id r v.expire epoch length s.manager own
            v.holds same) in
      record {
        expire = s.now + length;
        holds = held;
        client_id = v.client_id;
        client_epoch = v.client_epoch;
        client_config = v.client_config;
        acked = inl (omega (arith, v.acked_past));
        acked_past = v.acked_past;
        pings = v.pings;
        half = λ p' q'. absurd (cc);
        pongs = All-mono s.pongs (λ q h. (h.0, h.1, inl (omega (arith, h.1)))) v.pongs;
      }

  hears_pong-IsSafe :
      (q : HeartbeatPong) (sender : String)
      → IsIn q s.pongs
      → IsSafe id r epoch length config (record s { client = handle_pong sender q s.client })
  unfolding handle_pong accept
  hears_pong-IsSafe q sender i =
      let (same, past, covered) = IsIn-All _ q s.pongs i v.pongs in
      record {
        expire = v.expire;
        holds = v.holds;
        client_id = ground (arith, v.client_id);
        client_epoch = ground (arith, v.client_epoch);
        client_config = ground (arith, v.client_config);
        acked = ground (arith, v.acked);
        acked_past = ground (arith, v.acked_past);
        pings = v.pings;
        half = v.half;
        pongs = v.pongs;
      }

  watches_master-IsSafe :
      (info : MasterInfo)
      → info.epoch ≡ s.manager.epoch
      → IsSafe id r epoch length config (record s {
        client = (check_master_timeout {E = String} s.now (loaded info) none s.client).0;
      })
  unfolding check_master_timeout refresh_master_info
  watches_master-IsSafe info q = record {
    expire = v.expire;
    holds = v.holds;
    client_id = ground (arith, v.client_id);
    client_epoch = ground (arith, v.client_epoch, v.holds);
    client_config = ground (arith, v.client_config);
    acked = ground (arith, v.acked);
    acked_past = ground (arith, v.acked_past);
    pings = v.pings;
    half = v.half;
    pongs = v.pongs;
  }

  checks_worker-IsSafe :
      (m : Manager) (x : Option MasterError)
      → check_entry s.now s.client.worker_id r s.manager ≡ returns (m, x)
      → IsSafe id r epoch length config (record s { manager = m })
  checks_worker-IsSafe m x e =
      let held : Holds id r v.expire epoch length m =
        subst (λ o. Returns o (λ (m', y). Holds id r v.expire epoch length m'))
          (subst (λ i. check_entry s.now i r s.manager ≡ returns (m, x)) v.client_id e)
          (check_entry-Holds s.now id r v.expire epoch length s.manager v.holds) in
      record {
        expire = v.expire;
        holds = held;
        client_id = v.client_id;
        client_epoch = v.client_epoch;
        client_config = v.client_config;
        acked = v.acked;
        acked_past = v.acked_past;
        pings = v.pings;
        half = v.half;
        pongs = v.pongs;
      }

Step-IsSafe :
    (id : String) (r epoch length : ℕ) (config : TimeoutConfig) (s t : System)
    → Step r s t
    → IsSafe id r epoch length config s
    → IsSafe id r epoch length config t
Step-IsSafe id r epoch length config s t (time_passes d e) v =
    subst (IsSafe id r epoch length config) (sym e)
      (time_passes-IsSafe id r epoch length config s v d)
Step-IsSafe id r epoch length config s t (pings_master b e) v =
    subst (IsSafe id r epoch length config) (sym e)
      (pings_master-IsSafe id r epoch length config s v b)
Step-IsSafe id r epoch length config s t (sends_pong p i idle e) v =
    subst (IsSafe id r epoch length config) (sym e)
      (sends_pong-IsSafe id r epoch length config s v p i idle)
Step-IsSafe id r epoch length config s t (renews_lease p node m q h e) v =
    subst (IsSafe id r epoch length config) (sym e)
      (renews_lease-IsSafe id r epoch length config s v p node m q h)
Step-IsSafe id r epoch length config s t (hears_pong q sender i e) v =
    subst (IsSafe id r epoch length config) (sym e)
      (hears_pong-IsSafe id r epoch length config s v q sender i)
Step-IsSafe id r epoch length config s t (watches_master info q e) v =
    subst (IsSafe id r epoch length config) (sym e)
      (watches_master-IsSafe id r epoch length config s v info q)
Step-IsSafe id r epoch length config s t (checks_worker m x h e) v =
    subst (IsSafe id r epoch length config) (sym e)
      (checks_worker-IsSafe id r epoch length config s v m x h)

pub Reach-IsSafe :
    (id : String) (r epoch length : ℕ) (config : TimeoutConfig) (s t : System)
    → Reach r s t
    → IsSafe id r epoch length config s
    → IsSafe id r epoch length config t
Reach-IsSafe id r epoch length config s t here v = v
Reach-IsSafe id r epoch length config s t (next {t = u} rs st) v =
    Step-IsSafe id r epoch length config u t st (Reach-IsSafe id r epoch length config s u rs v)
