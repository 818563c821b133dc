-- ===== src/Master/Entry.antt =====
-- lib/master/worker_entry.go, and the worker status of lib/model/status.go. Times are numbers on the
-- clock's scale, and 0 is Go's zero time. A log call at the level Panic does not come back.
pub mod Laws
use microcosm.Base.{
  ℕ, String, Bool, true, false, ◌||◌, not, Option, none, some, Outcome, returns, panics,
  if◌then◌else◌, ◌==◌, String_eq, ℕ_eq,
}

pub data StatusCode : Type 0 where
  normal created init error finished stopped : StatusCode

-- The constants' values, `iota + 1`.
abbrev pub code_number : StatusCode → ℕ
code_number normal = 1
code_number created = 2
code_number init = 3
code_number error = 4
code_number finished = 5
code_number stopped = 6

abbrev pub same_code : StatusCode → StatusCode → Bool
same_code a b = code_number a == code_number b

-- The fields that the framework reads.
pub record WorkerStatus : Type 0 where
  pub code : StatusCode
  pub error_message : String
  pub ext_bytes : String

unfoldable pub has_significant_change : WorkerStatus → WorkerStatus → Bool
has_significant_change s other =
    not (same_code s.code other.code) || not (s.error_message == other.error_message)

abbrev terminates : StatusCode → Bool
terminates StatusCode.finished = true
terminates StatusCode.stopped = true
terminates StatusCode.error = true
terminates _ = false

pub in_terminate_state : WorkerStatus → Bool
in_terminate_state s = terminates s.code

pub data EntryState : Type 0 where
  wait created normal offline tombstone : EntryState

pub record WorkerEntry : Type 0 where
  pub id : String
  pub executor_id : String
  pub expire_at : ℕ
  pub state : EntryState
  pub received_finish : Bool
  pub status : Option WorkerStatus

unfoldable pub new_worker_entry :
    String → String → ℕ → EntryState → Option WorkerStatus → WorkerEntry
new_worker_entry id executor_id expire_at state init_status = record {
  id = id;
  executor_id = executor_id;
  expire_at = expire_at;
  state = state;
  received_finish = false;
  status = init_status;
}

unfoldable pub new_waiting_worker_entry : String → Option WorkerStatus → WorkerEntry
unfolding new_worker_entry
new_waiting_worker_entry id last_status = new_worker_entry id "" 0 wait last_status

abbrev pub is_wait : EntryState → Bool
is_wait wait = true
is_wait _ = false

abbrev pub is_created : EntryState → Bool
is_created created = true
is_created _ = false

abbrev pub is_normal : EntryState → Bool
is_normal normal = true
is_normal _ = false

abbrev pub is_offline : EntryState → Bool
is_offline offline = true
is_offline _ = false

abbrev pub is_tomb : EntryState → Bool
is_tomb tombstone = true
is_tomb _ = false

abbrev pub is_finished : WorkerEntry → Bool
is_finished e = e.received_finish

abbrev pub is_tombstone : WorkerEntry → Bool
is_tombstone e = is_tomb e.state

unfoldable pub mark_as_tombstone : WorkerEntry → Outcome WorkerEntry
mark_as_tombstone e =
    if is_wait e.state || is_offline e.state || is_finished e
    then returns (record e { state = tombstone })
    else panics

unfoldable pub mark_as_online : String → ℕ → WorkerEntry → Outcome WorkerEntry
mark_as_online executor expire_at e =
    if is_created e.state || is_wait e.state
    then returns (record e { state = normal; expire_at = expire_at; executor_id = executor })
    else panics

unfoldable pub mark_as_offline : WorkerEntry → Outcome WorkerEntry
mark_as_offline e =
    if is_created e.state || is_normal e.state
    then returns (record e { state = offline })
    else panics

unfoldable pub update_status : Option WorkerStatus → WorkerEntry → WorkerEntry
update_status status e = record e { status = status }

unfoldable pub set_expire_time : ℕ → WorkerEntry → WorkerEntry
set_expire_time expire_at e = record e { expire_at = expire_at }

unfoldable pub set_finished : WorkerEntry → WorkerEntry
set_finished e = record e { received_finish = true }
