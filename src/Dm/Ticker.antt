-- ===== src/Dm/Ticker.antt =====
-- jobmaster/dm/ticker/ticker.go. A method that holds s.mu is one step; Tick reads the clock three times,
-- and its TickImpl is between the last two. Times count from Go's zero time.
pub mod Earliest
use microcosm.Base.{
  ℕ, ◌+◌, Bool, true, false, not, ◌&&◌, ◌||◌, List, [], ◌∷◌, ltb, eqb, if◌then◌else◌,
}

pub record DefaultTicker : Type 0 where
  pub last_check_time : ℕ
  pub next_check_time : ℕ
  pub normal_interval : ℕ
  pub error_interval : ℕ

unfoldable pub set_next_check_time : ℕ → DefaultTicker → DefaultTicker
set_next_check_time t s =
    if eqb s.last_check_time s.next_check_time || ltb s.last_check_time t && ltb t s.next_check_time
    then record s { next_check_time = t }
    else s

unfoldable pub new_default_ticker : ℕ → ℕ → ℕ → DefaultTicker
new_default_ticker now normal_interval error_interval = set_next_check_time now (record {
  last_check_time = 0;
  next_check_time = 0;
  normal_interval = normal_interval;
  error_interval = error_interval;
})

-- The guard at the head of Tick.
unfoldable pub is_due : ℕ → DefaultTicker → Bool
is_due now s = not (ltb now s.next_check_time)

unfoldable pub advance_check_time : ℕ → DefaultTicker → DefaultTicker
advance_check_time now s = record s { last_check_time = now; next_check_time = now }

-- After TickImpl, with whether it gave an error.
unfoldable pub after_tick : ℕ → Bool → DefaultTicker → DefaultTicker
after_tick now failed s =
    set_next_check_time (now + (if failed then s.error_interval else s.normal_interval)) s
