-- ===== src/Worker/Lease/Safe.antt =====
-- A worker that holds on to its master is not given up by it.
use microcosm.Base.{
  ℕ, ◌+◌, ◌*◌, ◌≤◌, String, false, Option, none, some, ◌≡◌, ◌≢◌, arith, lookup, ℕ_eq, String_eq,
  returns,
}
use mathlib.Core.Option
use microcosm.Master.Manager.{Manager, check_entry, load}
use microcosm.Worker.Timeouts.{TimeoutConfig, adjust, adjust_bounds, second}
use microcosm.Worker.MasterClient.{
  MasterClient, MasterInfo, loaded, check_master_timeout, refresh_master_info, Ping, timed_out,
}
use microcosm.Worker.Lease.{System, Reach}
-- The manager is ready, it knows the worker, which is not one that it waits for after a recovery, and
use microcosm.Worker.Lease.Inv.{Holds, Covers, IsSafe, Reach-IsSafe}

-- The check of a worker whose lease lasts and that has not finished.
check_entry_spares :
    (now : ℕ) (id : String) (r t epoch length : ℕ) (m : Manager)
    → Holds id r t epoch length m
    → now ≤ t
    → Option.map (λ e. e.received_finish) (lookup r m.heap) ≡ some false
    → check_entry now id r m ≡ returns (m, none)
unfolding check_entry load
check_entry_spares now id r t epoch length m h lasts open_ = ground arith

-- The answer of the watchdog that lets the worker live.
patient :
    (mono : ℕ) (info : MasterInfo) (c : MasterClient)
    → 2 * c.timeout_config.worker_heartbeat_interval ≤ c.timeout_config.worker_timeout_duration
    → (check_master_timeout {E = String} mono (loaded info) none c).1 ≢ timed_out
    → mono ≤ c.last_master_acked_ping_time + c.timeout_config.worker_timeout_duration
unfolding check_master_timeout refresh_master_info
patient mono info c fits h = ground arith

in_time :
    (mono expire graceful : ℕ) (half : Option Ping) (config : TimeoutConfig) (info : MasterInfo)
    (c : MasterClient)
    → c.timeout_config ≡ config
    → 2 * config.worker_heartbeat_interval + 3 * second ≤ config.worker_timeout_duration
    → half ≡ none
    → Covers (config.worker_timeout_duration + graceful) expire half c.last_master_acked_ping_time
    → (check_master_timeout {E = String} mono (loaded info) none c).1 ≢ timed_out
    → mono ≤ expire
in_time mono expire graceful half config info c same fits idle covers alive =
    let lives = patient mono info c (ground (arith, same)) alive in ground (arith, same)

-- A worker and its master, with adjusted timeouts, that start with the worker's last acknowledged ping
-- covered by its lease: after any steps, messages that are late, lost or out of order included, as long
-- as the worker's watchdog would let it live, no ping is half handled and the worker has not said that
-- it has finished, the master's check leaves the worker alone.
pub keeps_worker :
    (id : String) (r epoch graceful : ℕ) (asked : TimeoutConfig) (info : MasterInfo) (s t : System)
    → IsSafe id r epoch ((adjust asked).worker_timeout_duration + graceful) (adjust asked) s
    → Reach r s t
    → t.half_handled ≡ none
    → (check_master_timeout {E = String} t.now (loaded info) none t.client).1 ≢ timed_out
    → Option.map (λ e. e.received_finish) (lookup r t.manager.heap) ≡ some false
    → check_entry t.now id r t.manager ≡ returns (t.manager, none)
keeps_worker id r epoch graceful asked info s t v rs idle alive open_ =
    let length = (adjust asked).worker_timeout_duration + graceful in
    let u = Reach-IsSafe id r epoch length (adjust asked) s t rs v in
    let fits = adjust_bounds asked in
    check_entry_spares t.now id r u.expire epoch length t.manager u.holds
      (in_time t.now u.expire graceful t.half_handled (adjust asked) info t.client u.client_config
        fits.0 idle u.acked alive)
      open_
