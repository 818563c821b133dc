-- ===== src/Dm/WorkerManager/Units.antt =====
-- The unit that a task's worker should run: the next one, and the current one by the checkpoints.
use microcosm.Base.{
  ℕ, suc, ◌+◌, Bool, true, false, none, some, List, [], ◌∷◌, ◌++◌, ◌≡◌, refl, ap, ◌∙◌, sym, subst,
  All, eqb, Bool-cases, if◌then◌else◌, ◌⊎◌, inl, inr, arith, returns, panics, Returns, ◌>>=◌,
  append_assoc, append_nil,
}
use microcosm.Dm.Runtime.{Task, TaskMode, WorkerStatus, is_finished}
use microcosm.Dm.WorkerManager.{
  Freshness, fresh, unknown_freshness, CheckpointAgent, worker_seq, seq_of, Current, current,
  current_failed, last_stale, at_freshness, reverse_onto, first_of, get_current_unit, idx_from,
  worker_idx_in_seq, unit_after, next_worker_type, get_next_unit,
}

abbrev pub is_unit : ℕ → List ℕ → Bool
is_unit u [] = false
is_unit u (x ∷ xs) = if eqb x u then true else is_unit u xs

abbrev pub head_or : ℕ → List ℕ → ℕ
head_or u [] = u
head_or u (x ∷ _) = x

-- The unit that comes after it, and the last unit itself.
unfoldable pub successor : ℕ → List ℕ → ℕ
successor u [] = u
successor u (x ∷ rest) = let later = successor u rest in if eqb x u then head_or u rest else later

found :
    (i u : ℕ) (seq : List ℕ)
    → is_unit u seq ≡ true
    → (d : ℕ) × (idx_from i u seq ≡ returns (i + d))
      × (unit_after d seq ≡ returns (successor u seq))
unfolding idx_from unit_after successor
found i u [] h = absurd (cc)
found i u (x ∷ []) h = (0, ground arith, ground arith)
found i u (x ∷ y ∷ rest) h = elim (Bool-cases (eqb x u)) [
  | inl q ↦ (0, ground arith, ground arith)
  | inr q ↦
      let later : is_unit u (y ∷ rest) ≡ true = ground (arith, q, h) in
      let (d, at, next) = found (suc i) u (y ∷ rest) later in
      let moved : suc i + d ≡ i + suc d = omega arith in
      (suc d, rw q (at ∙ ap returns moved), rw q next)
]

is_unit_later : (u x : ℕ) (xs : List ℕ) → is_unit u xs ≡ true → is_unit u (x ∷ xs) ≡ true
is_unit_later u x xs h = ground arith

pub is_unit-successor :
    (u : ℕ) (seq : List ℕ) → is_unit u seq ≡ true → is_unit (successor u seq) seq ≡ true
unfolding successor
is_unit-successor u [] h = h
is_unit-successor u (x ∷ []) h = ground arith
is_unit-successor u (x ∷ y ∷ rest) h = elim (Bool-cases (eqb x u)) [
  | inl q ↦ ground (arith, q)
  | inr q ↦
      let later : is_unit u (y ∷ rest) ≡ true = ground (arith, q, h) in
      let same : successor u (x ∷ y ∷ rest) ≡ successor u (y ∷ rest) = rw (successor, q) refl in
      subst (λ v. is_unit v (x ∷ y ∷ rest) ≡ true) (sym same)
        (is_unit_later (successor u (y ∷ rest)) x (y ∷ rest) (is_unit-successor u (y ∷ rest) later))
]

zero_plus : (d : ℕ) → 0 + d ≡ d
zero_plus d = omega arith

seq_known :
    (mode : TaskMode) (seq : List ℕ) → worker_seq mode ≡ some seq → seq_of mode ≡ returns seq
seq_known mode seq q = ap (λ o. elim o [ none ↦ panics | some s ↦ returns s ]) q

next_worker_type_lem :
    (mode : TaskMode) (u v d : ℕ) (seq : List ℕ)
    → seq_of mode ≡ returns seq
    → idx_from 0 u seq ≡ returns d
    → unit_after d seq ≡ returns v
    → next_worker_type mode u ≡ returns v
unfolding next_worker_type worker_idx_in_seq
next_worker_type_lem mode u v d seq known at next =
    ap (λ o. o >>= λ s. (seq_of mode >>= idx_from 0 u) >>= λ i. unit_after i s) known
    ∙ ap (λ o. (o >>= idx_from 0 u) >>= λ i. unit_after i seq) known
    ∙ ap (λ o. o >>= λ i. unit_after i seq) at
    ∙ next

-- The next unit for a worker that runs a unit of its task's mode: the same one until the worker has
-- finished, and then the one that comes after it in the mode's sequence, or the last one again at the end.
-- It is found without a panic, and it is a unit of the sequence.
pub get_next_unit-successor :
    (task : Task) (w : WorkerStatus) (seq : List ℕ)
    → worker_seq task.cfg.task_mode ≡ some seq
    → is_unit w.unit seq ≡ true
    → (get_next_unit task w
        ≡ returns (if is_finished w.stage then successor w.unit seq else w.unit))
      × (is_unit (if is_finished w.stage then successor w.unit seq else w.unit) seq ≡ true)
unfolding get_next_unit
get_next_unit-successor task w seq known here =
    let mode = task.cfg.task_mode in
    let (d, at, next) = found 0 w.unit seq here in
    let after = is_unit-successor w.unit seq here in
    elim (Bool-cases (is_finished w.stage)) [
      | inl q ↦ rw q (
        next_worker_type_lem mode w.unit (successor w.unit seq) d seq (seq_known mode seq known)
            (at ∙ ap returns (zero_plus d)) next,
        after,
      )
      | inr q ↦ rw q (refl, here)
    ]

-- What the checkpoints say of where a sequence of units stands: the units after it are fresh, and it is
-- not, or is the first one. An error is that of a unit with only fresh ones after it.
abbrev pub Resumes : CheckpointAgent → Task → List ℕ → Current → Type 0
Resumes checkpoint task seq (current u) =
    (before after : List ℕ) × (seq ≡ before ++ u ∷ after)
    × All (λ v. checkpoint v task ≡ fresh true) after
    × ((checkpoint u task ≡ fresh false) ⊎ (before ≡ []))
Resumes checkpoint task seq (current_failed e) =
    (u : ℕ) × (before after : List ℕ) × (seq ≡ before ++ u ∷ after)
    × All (λ v. checkpoint v task ≡ fresh true) after
    × (checkpoint u task ≡ unknown_freshness e)

reverse_onto-append : (xs acc : List ℕ) → reverse_onto xs acc ≡ reverse_onto xs [] ++ acc
unfolding reverse_onto
reverse_onto-append [] acc = refl
reverse_onto-append (x ∷ xs) acc =
    reverse_onto-append xs (x ∷ acc)
    ∙ sym (append_assoc (reverse_onto xs []) (x ∷ []) acc)
    ∙ ap (λ l. l ++ acc) (sym (reverse_onto-append xs (x ∷ [])))

reverse_onto_twice :
    (xs acc ys : List ℕ) → reverse_onto (reverse_onto xs acc) ys ≡ reverse_onto acc (xs ++ ys)
unfolding reverse_onto
reverse_onto_twice [] acc ys = refl
reverse_onto_twice (x ∷ xs) acc ys = reverse_onto_twice xs (x ∷ acc) ys

module _ (checkpoint : CheckpointAgent) (task : Task) where
  at_freshness-Resumes :
      (seq : List ℕ) (y : ℕ) (before after : List ℕ) (earlier : Current)
      → seq ≡ before ++ y ∷ after
      → All (λ v. checkpoint v task ≡ fresh true) after
      → (checkpoint y task ≡ fresh true → Resumes checkpoint task seq earlier)
      → (f : Freshness) → checkpoint y task ≡ f
      → Resumes checkpoint task seq (at_freshness y earlier f)
  at_freshness-Resumes seq y before after earlier split later ih (fresh true) q = ih q
  at_freshness-Resumes seq y before after earlier split later ih (fresh false) q =
      (before, after, split, later, inl q)
  at_freshness-Resumes seq y before after earlier split later ih (unknown_freshness e) q =
      (y, before, after, split, later, q)

  last_stale-Resumes :
      (u : ℕ) (rest seq ys after : List ℕ)
      → seq ≡ u ∷ rest
      → seq ≡ reverse_onto ys after
      → All (λ v. checkpoint v task ≡ fresh true) after
      → Resumes checkpoint task seq (last_stale checkpoint task ys (current u))
  unfolding last_stale reverse_onto
  last_stale-Resumes u rest seq [] after first split later =
      let same : after ≡ u ∷ rest = sym split ∙ first in
      ([], rest, first, (subst (All (λ v. checkpoint v task ≡ fresh true)) same later).1, inr refl)
  last_stale-Resumes u rest seq (y ∷ ys) after first split later =
      at_freshness-Resumes seq y (reverse_onto ys []) after
        (last_stale checkpoint task ys (current u)) (split ∙ reverse_onto-append ys (y ∷ after))
        later (λ q. last_stale-Resumes u rest seq ys (y ∷ after) first split (q, later))
        (checkpoint y task) refl

  -- The unit to resume a task with, of a mode that has units: getCurrentUnit returns, with a unit of the mode's sequence that is not fresh, or the
  -- first one, such that all later units are fresh; or with the error of a unit's checkpoint whose later
  -- units are all fresh.
  pub get_current_unit-Resumes :
      (u : ℕ) (rest : List ℕ)
      → worker_seq task.cfg.task_mode ≡ some (u ∷ rest)
      → Returns (get_current_unit checkpoint task) (Resumes checkpoint task (u ∷ rest))
  unfolding get_current_unit reverse_onto
  get_current_unit-Resumes u rest known =
      subst
        (λ o.
          Returns
            (o >>= λ seq. first_of seq >>= λ first.
              returns (last_stale checkpoint task (reverse_onto seq []) (current first)))
            (Resumes checkpoint task (u ∷ rest)))
        (sym (seq_known task.cfg.task_mode (u ∷ rest) known))
        (last_stale-Resumes u rest (u ∷ rest) (reverse_onto (u ∷ rest) []) [] refl
          (sym (append_nil (u ∷ rest)) ∙ sym (reverse_onto_twice (u ∷ rest) [] [])) tt)

-- The place of a unit of a mode's sequence is found.
pub worker_idx_in_seq_lem :
    (mode : TaskMode) (u : ℕ) (seq : List ℕ)
    → worker_seq mode ≡ some seq
    → is_unit u seq ≡ true
    → (d : ℕ) × (worker_idx_in_seq mode u ≡ returns d)
unfolding worker_idx_in_seq
worker_idx_in_seq_lem mode u seq known here =
    let (d, at, _) = found 0 u seq here in
    (0 + d, ap (λ o. o >>= idx_from 0 u) (seq_known mode seq known) ∙ at)
