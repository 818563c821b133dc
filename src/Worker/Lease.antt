-- ===== src/Worker/Lease.antt =====
-- A worker and its master together: the heartbeats of lib/worker.go, the handler of pings in
-- registerMessageHandlers of lib/master.go, and the lease that lib/master/worker_manager.go keeps. Both
-- read one clock. A message stays in flight once it is sent, so it may come late, again, in another
-- order or not at all. The handler sends the pong first and then renews the lease, so it is two steps.
pub mod Inv
pub mod Safe
use microcosm.Base.{
  ℕ, ◌+◌, ◌≤◌, String, Option, none, some, List, [], ◌∷◌, ◌≡◌, Bool, Outcome, returns,
}
use microcosm.Master.Manager.{Manager, HeartbeatPing, handle_heartbeat, check_entry, MasterError}
use microcosm.Worker.Timeouts.{TimeoutConfig}
use microcosm.Worker.MasterClient.{
  MasterClient, MasterInfo, Loaded, loaded, HeartbeatPong, handle_pong, check_master_timeout, Ping,
  heartbeat_message, TimeoutCheck,
}

pub record System : Type 0 where
  pub now : ℕ
  pub manager : Manager
  pub client : MasterClient
  pub pings : List Ping
  pub pongs : List HeartbeatPong
  pub half_handled : Option Ping

abbrev pub pong_of : Ping → Manager → HeartbeatPong
pong_of p m = record { send_time = p.send_time; epoch = m.epoch; is_finished = p.is_finished }

abbrev pub received : Ping → HeartbeatPing
received p = record {
  from_worker_id = p.from_worker_id;
  epoch = p.epoch;
  is_finished = p.is_finished;
}

pub data IsIn {A : Type 0} (x : A) : List A → Type 0 where
  first : (xs : List A) → IsIn x (x ∷ xs)
  later : (y : A) (xs : List A) → IsIn x xs → IsIn x (y ∷ xs)

-- `r` is where the worker's entry is.
pub data Step (r : ℕ) (s t : System) : Type 0 where
  time_passes : (d : ℕ) → t ≡ record s { now = s.now + d } → Step r s t
  pings_master :
      (is_finished : Bool)
      → t ≡ record s { pings = heartbeat_message s.now is_finished s.client ∷ s.pings }
      → Step r s t
  sends_pong :
      (p : Ping)
      → IsIn p s.pings
      → s.half_handled ≡ none
      → t ≡ record s { pongs = pong_of p s.manager ∷ s.pongs; half_handled = some p }
      → Step r s t
  renews_lease :
      (p : Ping) (node : String) (m : Manager)
      → s.half_handled ≡ some p
      → handle_heartbeat s.now (received p) node s.manager ≡ returns m
      → t ≡ record s { manager = m; half_handled = none }
      → Step r s t
  hears_pong :
      (q : HeartbeatPong) (sender : String)
      → IsIn q s.pongs
      → t ≡ record s { client = handle_pong sender q s.client }
      → Step r s t
  watches_master :
      (info : MasterInfo)
      → info.epoch ≡ s.manager.epoch
      → t ≡ record s {
        client = (check_master_timeout {E = String} s.now (loaded info) none s.client).0;
      }
      → Step r s t
  checks_worker :
      (m : Manager) (x : Option MasterError)
      → check_entry s.now s.client.worker_id r s.manager ≡ returns (m, x)
      → t ≡ record s { manager = m }
      → Step r s t

pub data Reach (r : ℕ) (s : System) : System → Type 0 where
  here : Reach r s s
  next : {t u : System} → Reach r s t → Step r t u → Reach r s u
