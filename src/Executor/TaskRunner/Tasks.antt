-- ===== src/Executor/TaskRunner/Tasks.antt =====
-- The map of the tasks: how many of them are in Init, and what their entries tell.
use microcosm.Base.{
  ℕ, suc, ◌+◌, String, Bool, true, false, Option, none, some, [], ◌∷◌, Map, lookup, insert, delete,
  length, All, IsMap, String_eq, ◌==◌, eq_iff, ◌≡◌, ◌≢◌, refl, subst, ap, inl, inr, arith,
  Bool-cases,
}
use microcosm.Executor.TaskRunner.{
  task_submitted, task_running, task_closing, in_init, in_event_loop, ended, stopped, TaskEntry,
  cancel_tasks,
}

-- What a task takes of the quota.
abbrev pub weight : TaskEntry → ℕ
weight e = elim e.stage [ in_init ↦ 1 | _ ↦ 0 ]

unfoldable pub initializing : Map String TaskEntry → ℕ
initializing [] = 0
initializing ((id, e) ∷ m) = weight e + initializing m

pub initializing-insert_new :
    (id : String) (e : TaskEntry) (m : Map String TaskEntry)
    → lookup id m ≡ none
    → initializing (insert id e m) ≡ weight e + initializing m
unfolding initializing lookup insert
initializing-insert_new id e [] h = refl
initializing-insert_new id e ((j, f) ∷ m) h = elim (Bool-cases (j == id)) [
  | inl hit ↦ absurd (ground (arith, hit, h))
  | inr miss ↦
      let ih = initializing-insert_new id e m (ground (arith, miss, h)) in
      rw miss (omega (arith, ih))
]

pub initializing-insert :
    (id : String) (e f : TaskEntry) (m : Map String TaskEntry)
    → lookup id m ≡ some e
    → initializing (insert id f m) + weight e ≡ weight f + initializing m
unfolding initializing lookup insert
initializing-insert id e f [] h = absurd (cc)
initializing-insert id e f ((j, g) ∷ m) h = elim (Bool-cases (j == id)) [
  | inl hit ↦
      let found : g ≡ e = ground (arith, hit, h) in
      let same = ap weight found in rw hit (omega (arith, same))
  | inr miss ↦
      let ih = initializing-insert id e f m (ground (arith, miss, h)) in rw miss (omega (arith, ih))
]

pub initializing-delete_missing :
    (id : String) (m : Map String TaskEntry)
    → lookup id m ≡ none
    → initializing (delete id m) ≡ initializing m
unfolding initializing lookup delete
initializing-delete_missing id [] h = refl
initializing-delete_missing id ((j, g) ∷ m) h = elim (Bool-cases (j == id)) [
  | inl hit ↦ absurd (ground (arith, hit, h))
  | inr miss ↦
      let ih = initializing-delete_missing id m (ground (arith, miss, h)) in
      rw miss (omega (arith, ih))
]

pub initializing-delete :
    (id : String) (e : TaskEntry) (m : Map String TaskEntry)
    → IsMap m
    → lookup id m ≡ some e
    → initializing (delete id m) + weight e ≡ initializing m
unfolding initializing lookup delete
initializing-delete id e [] v h = absurd (cc)
initializing-delete id e ((j, g) ∷ m) v h = elim (Bool-cases (j == id)) [
  | inl hit ↦
      let found : g ≡ e = ground (arith, hit, h) in
      let same = ap weight found in
      let gone : lookup id m ≡ none = subst (λ k. lookup k m ≡ none) ((eq_iff j id).0 hit) v.0 in
      let rest = initializing-delete_missing id m gone in rw hit (omega (arith, same, rest))
  | inr miss ↦
      let ih = initializing-delete id e m v.1 (ground (arith, miss, h)) in
      rw miss (omega (arith, ih))
]

pub cancel_tasks-initializing :
    (m : Map String TaskEntry) → initializing (cancel_tasks m) ≡ initializing m
unfolding initializing cancel_tasks
cancel_tasks-initializing [] = refl
cancel_tasks-initializing ((id, e) ∷ m) = ap (λ n. weight e + n) (cancel_tasks-initializing m)

pub cancel_tasks-length : (m : Map String TaskEntry) → length (cancel_tasks m) ≡ length m
unfolding cancel_tasks
cancel_tasks-length [] = refl
cancel_tasks-length ((id, e) ∷ m) = ap suc (cancel_tasks-length m)

pub cancel_tasks-missing :
    (j : String) (m : Map String TaskEntry) → lookup j m ≡ none → lookup j (cancel_tasks m) ≡ none
unfolding cancel_tasks lookup
cancel_tasks-missing j [] h = refl
cancel_tasks-missing j ((id, e) ∷ m) h = ground (arith, cancel_tasks-missing j m)

pub cancel_tasks-IsMap : (m : Map String TaskEntry) → IsMap m → IsMap (cancel_tasks m)
unfolding cancel_tasks
cancel_tasks-IsMap [] v = tt
cancel_tasks-IsMap ((id, e) ∷ m) v = (cancel_tasks-missing id m v.0, cancel_tasks-IsMap m v.1)

-- The status of a task tells how far its goroutine is.
abbrev pub Fits : TaskEntry → Type 0
Fits e = elim e.stage [
  | in_init ↦ e.status ≡ task_submitted
  | in_event_loop ↦ e.status ≡ task_running
  | ended ↦ e.status ≢ task_closing
  | stopped ↦ e.status ≡ task_closing
]

-- Whether the task has its OnStopped behind it, and is still in the map.
abbrev pub is_stopped : Option TaskEntry → Bool
is_stopped none = false
is_stopped (some e) = elim e.stage [ stopped ↦ true | _ ↦ false ]

pub cancel_tasks-is_stopped :
    (id : String) (m : Map String TaskEntry)
    → is_stopped (lookup id (cancel_tasks m)) ≡ is_stopped (lookup id m)
unfolding cancel_tasks lookup
cancel_tasks-is_stopped id [] = refl
cancel_tasks-is_stopped id ((j, e) ∷ m) = elim (Bool-cases (j == id)) [
  | inl hit ↦ rw hit refl
  | inr miss ↦ rw miss (cancel_tasks-is_stopped id m)
]

pub cancel_tasks-Fits :
    (m : Map String TaskEntry)
    → All (λ entry. Fits entry.1) m
    → All (λ entry. Fits entry.1) (cancel_tasks m)
unfolding cancel_tasks
cancel_tasks-Fits [] h = tt
cancel_tasks-Fits ((id, e) ∷ m) h = (h.0, cancel_tasks-Fits m h.1)

pub cancel_tasks-cancelled :
    (m : Map String TaskEntry) → All (λ entry. entry.1.cancelled ≡ true) (cancel_tasks m)
unfolding cancel_tasks
cancel_tasks-cancelled [] = tt
cancel_tasks-cancelled ((id, e) ∷ m) = (refl, cancel_tasks-cancelled m)
