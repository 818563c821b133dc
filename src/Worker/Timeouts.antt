-- ===== src/Worker/Timeouts.antt =====
-- lib/config: the timeouts that a master and its workers agree on. A duration is a count of
-- nanoseconds.
use microcosm.Base.{ℕ, ◌+◌, ◌*◌, ◌≤◌, ◌≡◌, arith, ltb, if◌then◌else◌}

pub record TimeoutConfig : Type 0 where
  pub worker_timeout_duration : ℕ
  pub worker_timeout_graceful_duration : ℕ
  pub worker_heartbeat_interval : ℕ
  pub worker_report_status_interval : ℕ
  pub master_heartbeat_check_loop_interval : ℕ

abbrev pub second : ℕ
second = 1_000_000_000

unfoldable pub adjust : TimeoutConfig → TimeoutConfig
adjust config =
    if ltb config.worker_timeout_duration (2 * config.worker_heartbeat_interval + 3 * second)
    then record config {
      worker_timeout_duration = 2 * config.worker_heartbeat_interval + 3 * second;
    }
    else config

unfoldable pub default_timeout_config : TimeoutConfig
unfolding adjust
default_timeout_config = adjust (record {
  worker_timeout_duration = 15 * second;
  worker_timeout_graceful_duration = 5 * second;
  worker_heartbeat_interval = 3 * second;
  worker_report_status_interval = 3 * second;
  master_heartbeat_check_loop_interval = 1 * second;
})

-- An adjusted timeout leaves time for two heartbeats and three seconds more, is no shorter than the one
-- that was asked for, and is adjusted no further.
pub adjust_bounds :
    (config : TimeoutConfig)
    → let adjusted = adjust config in
      (2 * adjusted.worker_heartbeat_interval + 3 * second ≤ adjusted.worker_timeout_duration)
      × (config.worker_timeout_duration ≤ adjusted.worker_timeout_duration)
      × (adjust adjusted ≡ adjusted)
unfolding adjust
adjust_bounds config = ground arith
