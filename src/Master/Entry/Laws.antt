-- ===== src/Master/Entry/Laws.antt =====
-- The transitions of a worker entry: the diagram at the head of worker_entry.go, and
-- lib/doc/worker_entry_fsm.puml.
use microcosm.Base.{ℕ, String, false, Option, ◌≡◌, ◌⊎◌, returns, arith}
use microcosm.Master.Entry.{
  EntryState, wait, created, normal, offline, tombstone, WorkerEntry, WorkerStatus,
  mark_as_tombstone, mark_as_online, mark_as_offline, update_status, set_expire_time, set_finished,
}

-- One method call that comes back.
pub data Move (e f : WorkerEntry) : Type 0 where
  goes_online : (x : String) (t : ℕ) → mark_as_online x t e ≡ returns f → Move e f
  goes_offline : mark_as_offline e ≡ returns f → Move e f
  is_buried : mark_as_tombstone e ≡ returns f → Move e f
  reports : (s : Option WorkerStatus) → f ≡ update_status s e → Move e f
  renews : (t : ℕ) → f ≡ set_expire_time t e → Move e f
  finishes : f ≡ set_finished e → Move e f

pub data Moves (e : WorkerEntry) : WorkerEntry → Type 0 where
  here : Moves e e
  then : {f g : WorkerEntry} → Moves e f → Move f g → Moves e g

pub data Arrow : EntryState → EntryState → Type 0 where
  discovered : Arrow wait normal
  never_seen : Arrow wait tombstone
  started : Arrow created normal
  lost_early : Arrow created offline
  lost : Arrow normal offline
  called_back : Arrow offline tombstone

ruleset arrows = (discovered, never_seen, started, lost_early, lost, called_back)

-- A call that comes back, on an entry that has not received a finish, keeps the state or takes an arrow
-- of the diagram.
pub Move-Arrow :
    {e f : WorkerEntry}
    → e.received_finish ≡ false
    → Move e f
    → (f.state ≡ e.state) ⊎ Arrow e.state f.state
Move-Arrow {e} {f} h (goes_online x t q) = unfold mark_as_online in grind (arith, arrows)
Move-Arrow {e} {f} h (goes_offline q) = unfold mark_as_offline in grind (arith, arrows)
Move-Arrow {e} {f} h (is_buried q) = unfold mark_as_tombstone in grind (arith, arrows)
Move-Arrow {e} {f} h (reports s q) = unfold update_status in ground arith
Move-Arrow {e} {f} h (renews t q) = unfold set_expire_time in ground arith
Move-Arrow {e} {f} h (finishes q) = unfold set_finished in ground arith

abbrev IsDead : EntryState → Type 0
IsDead s = (s ≡ offline) ⊎ (s ≡ tombstone)

Move-IsDead : {e f : WorkerEntry} → IsDead e.state → Move e f → IsDead f.state
Move-IsDead h (goes_online x t q) = unfold mark_as_online in ground arith
Move-IsDead h (goes_offline q) = unfold mark_as_offline in ground arith
Move-IsDead h (is_buried q) = unfold mark_as_tombstone in ground arith
Move-IsDead h (reports s q) = unfold update_status in ground arith
Move-IsDead h (renews t q) = unfold set_expire_time in ground arith
Move-IsDead h (finishes q) = unfold set_finished in ground arith

-- An entry that is offline or a tombstone is one of the two after any calls that come back.
pub Moves-IsDead : {e f : WorkerEntry} → IsDead e.state → Moves e f → IsDead f.state
Moves-IsDead h here = h
Moves-IsDead h (then ms m) = Move-IsDead (Moves-IsDead h ms) m
