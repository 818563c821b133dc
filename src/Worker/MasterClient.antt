-- ===== src/Worker/MasterClient.antt =====
-- masterClient of lib/worker.go: what a worker knows of its master. A method that holds m.mu is one
-- step. A difference of two times is compared as a sum on the other side, since it may be negative.
-- The metadata client's answer, the message sender's answer and onMasterFailOver are parameters.
use microcosm.Base.{
  ℕ, ◌+◌, ◌*◌, String, Bool, true, false, Option, none, some, ltb, leb, ◌||◌, if◌then◌else◌,
}
use microcosm.Worker.Timeouts.{TimeoutConfig, default_timeout_config}

pub record MasterClient : Type 0 where
  pub master_id : String
  pub master_node : String
  pub master_epoch : ℕ
  pub worker_id : String
  pub last_master_acked_ping_time : ℕ
  pub master_side_closed : Bool
  pub timeout_config : TimeoutConfig

unfoldable pub new_master_client : String → String → ℕ → MasterClient
new_master_client master_id worker_id init_time = record {
  master_id = master_id;
  master_node = "";
  master_epoch = 0;
  worker_id = worker_id;
  last_master_acked_ping_time = init_time;
  master_side_closed = false;
  timeout_config = default_timeout_config;
}

-- Of the master's metadata, the node and the epoch.
pub record MasterInfo : Type 0 where
  pub node_id : String
  pub epoch : ℕ

pub data Loaded (E : Type 0) : Type 0 where
  load_failed : E → Loaded E
  loaded : MasterInfo → Loaded E

unfoldable pub init_master_info_from_meta :
    {E : Type 0} → Loaded E → MasterClient → MasterClient × Option E
init_master_info_from_meta (load_failed e) m = (m, some e)
init_master_info_from_meta (loaded info) m =
    (record m { master_node = info.node_id; master_epoch = info.epoch }, none)

-- With whether onMasterFailOver was called.
unfoldable pub refresh_master_info :
    {E : Type 0} → Loaded E → Option E → MasterClient → MasterClient × Option E × Bool
refresh_master_info (load_failed e) on_failover m = (m, some e, false)
refresh_master_info (loaded info) on_failover m =
    if ltb m.master_epoch info.epoch
    then (record m { master_node = info.node_id; master_epoch = info.epoch }, on_failover, true)
    else (record m { master_node = info.node_id }, none, false)

pub record HeartbeatPong : Type 0 where
  pub send_time : ℕ
  pub epoch : ℕ
  pub is_finished : Bool

unfoldable pub accept : String → HeartbeatPong → MasterClient → MasterClient
accept sender msg m =
    if ltb m.master_epoch msg.epoch
    then record m { master_epoch = msg.epoch; master_node = sender }
    else m

unfoldable pub handle_pong : String → HeartbeatPong → MasterClient → MasterClient
handle_pong sender msg m =
    if ltb msg.epoch m.master_epoch then m else record (accept sender msg m) {
      master_side_closed = msg.is_finished || m.master_side_closed;
      last_master_acked_ping_time = msg.send_time;
    }

-- The answers (true, nil), (false, nil) and (false, err).
pub data TimeoutCheck (E : Type 0) : Type 0 where
  normal timed_out : TimeoutCheck E
  check_failed : E → TimeoutCheck E

abbrev pub checked : {E : Type 0} → MasterClient × Option E × Bool → MasterClient × TimeoutCheck E
checked (m, none, called) = (m, normal)
checked (m, some e, called) = (m, check_failed e)

unfoldable pub check_master_timeout :
    {E : Type 0} → ℕ → Loaded E → Option E → MasterClient → MasterClient × TimeoutCheck E
check_master_timeout mono answer on_failover m =
    if leb mono (m.last_master_acked_ping_time + 2 * m.timeout_config.worker_heartbeat_interval)
    then (m, normal)
    else if ltb mono (m.last_master_acked_ping_time + m.timeout_config.worker_timeout_duration)
    then checked (refresh_master_info answer on_failover m)
    else (m, timed_out)

-- lib/model/messages.go, with the time that the master sends back.
pub record Ping : Type 0 where
  pub send_time : ℕ
  pub from_worker_id : String
  pub epoch : ℕ
  pub is_finished : Bool

unfoldable pub heartbeat_message : ℕ → Bool → MasterClient → Ping
heartbeat_message mono is_finished m = record {
  send_time = mono;
  from_worker_id = m.worker_id;
  epoch = m.master_epoch;
  is_finished = is_finished;
}
