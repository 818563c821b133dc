-- ===== src/Worker/Status/Persisted.antt =====
-- What is in the metadata of a worker's status.
use microcosm.Base.{
  ℕ, Bool, true, false, Option, none, some, List, [], ◌∷◌, lookup, has, ℕ_eq, String_eq, eq_iff,
  if◌then◌else◌, ◌≡◌, ◌≢◌, refl, ◌∙◌, inl, inr, arith, Outcome, returns, ◌>>=◌, Returns,
  Returns-bind, Returns-mono, has-some, Bool-cases, Option-cases, lookup-insert_self,
}
use microcosm.Master.Entry.{WorkerStatus, StatusCode, same_code, has_significant_change}
use microcosm.Worker.Status.{
  Writer, WriteError, World, sent, load, must_persist, remember, persist_status, update_status,
  assign, worker_update_status, persist_failed,
}

-- The two have the same code and the same error message.
abbrev pub IsSame : WorkerStatus → WorkerStatus → Type 0
IsSame s t = (s.code ≡ t.code) × (s.error_message ≡ t.error_message)

same_code_lem : (a b : StatusCode) → same_code a b ≡ true → a ≡ b
same_code_lem a b h = ground (arith, h)

IsSame-has_significant_change :
    (s t : WorkerStatus) → has_significant_change s t ≡ false → IsSame s t
unfolding has_significant_change
IsSame-has_significant_change s t h =
    let code : same_code s.code t.code ≡ true = ground (arith, h) in
    (same_code_lem s.code t.code code, ground (arith, h, eq_iff s.error_message t.error_message))

has_significant_change_self : (s : WorkerStatus) → has_significant_change s s ≡ false
unfolding has_significant_change
has_significant_change_self s = ground (arith, eq_iff s.error_message s.error_message)

-- The last status that the writer was given is in the metadata, up to what is not significant.
abbrev pub Follows : Writer → WorkerStatus → WorkerStatus → Type 0
Follows w last kept = (w.persisted ≡ some kept) × IsSame last kept

abbrev pub IsFaithful : Writer → Type 0
IsFaithful w =
    (r : ℕ)
    → w.last_status ≡ some r
    → (last : WorkerStatus) × (kept : WorkerStatus) × (lookup r w.heap ≡ some last)
      × Follows w last kept

IsSame-refl : (s : WorkerStatus) → IsSame s s
IsSame-refl s = (refl, refl)

IsSame-trans : (a b c : WorkerStatus) → IsSame a b → IsSame b c → IsSame a c
IsSame-trans a b c h k = (h.0 ∙ k.0, h.1 ∙ k.1)

abbrev pub IsKept : WorkerStatus → Writer → Type 0
IsKept s w = (kept : WorkerStatus) × Follows w s kept

abbrev pub Written : WorkerStatus → Writer × Option WriteError → Type 0
Written s (w, e) = IsFaithful w × (e ≢ some persist_failed → IsKept s w)

must_persist_first : (r : ℕ) (w : Writer) → w.last_status ≡ none → must_persist r w ≡ returns true
unfolding must_persist
must_persist_first r w q = ground arith

must_persist_later :
    (r l : ℕ) (s t : WorkerStatus) (w : Writer)
    → w.last_status ≡ some l
    → lookup r w.heap ≡ some s
    → lookup l w.heap ≡ some t
    → must_persist r w ≡ returns (has_significant_change s t)
unfolding must_persist load
must_persist_later r l s t w q found old = ground arith

persist_status_lem :
    (r : ℕ) (s : WorkerStatus) (w : Writer)
    → lookup r w.heap ≡ some s
    → persist_status r w ≡ returns (record w { persisted = some s })
unfolding persist_status load
persist_status_lem r s w found = ground arith

abbrev decide : World → ℕ → Writer → Bool → Outcome (Writer × Option WriteError)
decide world r w significant =
    if significant
    then if world.writes
      then persist_status r w >>= (λ w'. returns (remember r w', sent world.sends))
      else returns (w, some persist_failed)
    else returns (remember r w, sent world.sends)

-- Both ways of the decision, where the metadata agrees already if the status need not be written.
decide-Written :
    (world : World) (r : ℕ) (s : WorkerStatus) (w : Writer) (significant : Bool)
    → lookup r w.heap ≡ some s
    → IsFaithful w
    → (significant ≡ false → IsKept s w)
    → Returns (decide world r w significant) (Written s)
unfolding remember
decide-Written world r s w false found f k =
    let (kept, agrees) = k refl in (λ i q. (s, kept, ground arith, agrees), λ _. (kept, agrees))
decide-Written world r s w true found f k = elim (Bool-cases world.writes) [
  | inl writes ↦
      rw (writes, persist_status_lem r s w found)
        (λ i q. (s, s, ground arith, (refl, IsSame-refl s)), λ _. (s, (refl, IsSame-refl s)))
  | inr fails ↦ rw fails (f, λ n. absurd (n refl))
]

-- The writer, given an object that holds a status: unless it fails to write, the metadata agrees with
-- the status afterwards in its code and its error message, if it agreed with the last one before.
pub update_status-Written :
    (world : World) (r : ℕ) (s : WorkerStatus) (w : Writer)
    → lookup r w.heap ≡ some s
    → IsFaithful w
    → Returns (update_status world r w) (Written s)
unfolding update_status
update_status-Written world r s w found f = elim (Option-cases w.last_status) [
  | inl q ↦
      rw (must_persist_first r w q) (decide-Written world r s w true found f (λ e. absurd (cc)))
  | inr (l, q) ↦
      let (last, kept, old, (p, agrees)) = f l q in
      rw (must_persist_later r l s last w q found old) (
        decide-Written world r s w (has_significant_change s last) found f (λ e.
          (kept, (p, IsSame-trans s last kept (IsSame-has_significant_change s last e) agrees))))
]

-- The worker's calls of UpdateStatus, one after the other.
unfoldable pub worker_updates : List (World × WorkerStatus) → ℕ → Writer → Outcome Writer
worker_updates [] r w = returns w
worker_updates ((world, status) ∷ calls) r w =
    worker_update_status world status r w >>= λ (w', e). worker_updates calls r w'

-- The writer remembers the worker's own object.
abbrev pub IsShared : ℕ → Writer → Type 0
IsShared r w = (w.last_status ≡ some r) × (has r w.heap ≡ true)

abbrev pub Lost : ℕ → Writer → Writer → Type 0
Lost r w w' = IsShared r w' × (w'.persisted ≡ w.persisted)

abbrev pub LostNow : ℕ → Writer → World → WorkerStatus → Writer × Option WriteError → Type 0
LostNow r w world status (w', e) =
    Lost r w w' × (lookup r w'.heap ≡ some status) × (e ≡ sent world.sends)

worker_update_status-Lost :
    (world : World) (status : WorkerStatus) (r : ℕ) (w : Writer)
    → IsShared r w
    → Returns (worker_update_status world status r w) (LostNow r w world status)
unfolding worker_update_status assign update_status must_persist remember load
worker_update_status-Lost world status r w (q, h) =
    let (old, found) = has-some (lookup r w.heap) h in
    grind (arith, q, found, lookup-insert_self, has_significant_change_self status)

-- Once the writer remembers the worker's object, no status that the worker reports is written to the
-- metadata, whatever the reports are: the object is compared with itself.
pub worker_updates-Lost :
    (calls : List (World × WorkerStatus)) (r : ℕ) (w : Writer)
    → IsShared r w
    → Returns (worker_updates calls r w) (Lost r w)
unfolding worker_updates
worker_updates-Lost [] r w h = (h, refl)
worker_updates-Lost ((world, status) ∷ calls) r w h =
    Returns-bind (LostNow r w world status) (Lost r w) (worker_update_status world status r w) _
      (worker_update_status-Lost world status r w h)
      (λ (w1, e) ((h1, p1), _, _).
        Returns-mono (Lost r w1) (Lost r w) (worker_updates calls r w1)
          (worker_updates-Lost calls r w1 h1) (λ w2 (h2, p2). (h2, cc)))
