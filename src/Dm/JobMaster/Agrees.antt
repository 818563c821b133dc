-- ===== src/Dm/JobMaster/Agrees.antt =====
-- The statuses of the workers against the handles that the message agent holds.
use microcosm.Base.{
  ℕ, String, true, false, ◌||◌, none, some, [], ◌∷◌, ◌≡◌, refl, ap, ◌∙◌, sym, subst, Bool-cases,
  Map, IsMap, lookup, delete, lookup-delete, String_eq, ◌==◌, eq_iff, if◌then◌else◌, ◌⊎◌, inl, inr,
}
use microcosm.Dm.Runtime.{WorkerStatus, worker_online, is_offline, create_failed}
use microcosm.Dm.WorkerManager.{remove_offline_workers, remove_worker_status_by_worker_id}
use microcosm.Dm.WorkerManager.Settles.{kept_or_gone}

-- Each task has one status, and where there is a handle for a task, its status, if there is one, is that
-- of the handle's worker, which is online.
abbrev pub Agrees : Map String String → Map String WorkerStatus → Type 0
Agrees handles workers =
    IsMap workers
    × ((id : String) (w : WorkerStatus) (v : String)
        → lookup id workers ≡ some w
        → lookup id handles ≡ some v
        → (w.id ≡ v) × (w.stage ≡ worker_online))

abbrev pub Shrinks : Map String WorkerStatus → Map String WorkerStatus → Type 0
Shrinks a b = (id : String) → (lookup id a ≡ lookup id b) ⊎ (lookup id a ≡ none)

pub shrinks-Agrees :
    (handles : Map String String) (a b : Map String WorkerStatus)
    → IsMap a
    → Shrinks a b
    → Agrees handles b
    → Agrees handles a
shrinks-Agrees handles a b unique shrinks h =
    (unique, λ id w v at held. by_case id w v at held (shrinks id))
  where
    by_case :
        (id : String) (w : WorkerStatus) (v : String)
        → lookup id a ≡ some w
        → lookup id handles ≡ some v
        → (lookup id a ≡ lookup id b) ⊎ (lookup id a ≡ none)
        → (w.id ≡ v) × (w.stage ≡ worker_online)
    by_case id w v at held (inl same) = h.1 id w v (sym same ∙ at) held
    by_case id w v at held (inr gone) = absurd (cc)

pub delete-Shrinks : (k : String) (m : Map String WorkerStatus) → Shrinks (delete k m) m
delete-Shrinks k m id = elim (Bool-cases (k == id)) [
  | inl q ↦ inr (lookup-delete k id m ∙ ap (λ b. if b then none else lookup id m) q)
  | inr q ↦ inl (lookup-delete k id m ∙ ap (λ b. if b then none else lookup id m) q)
]

missing-Shrinks :
    (id : String) (a b : Map String WorkerStatus)
    → Shrinks a b
    → lookup id b ≡ none
    → lookup id a ≡ none
missing-Shrinks id a b shrinks q = by_case (shrinks id)
  where
    by_case : (lookup id a ≡ lookup id b) ⊎ (lookup id a ≡ none) → lookup id a ≡ none
    by_case (inl same) = same ∙ q
    by_case (inr gone) = gone

remove_offline_workers-IsMap :
    (now : ℕ) (m : Map String WorkerStatus) → IsMap m → IsMap (remove_offline_workers now m)
unfolding remove_offline_workers
remove_offline_workers-IsMap now [] h = tt
remove_offline_workers-IsMap now ((id, w) ∷ m) (missing, h) =
    elim (Bool-cases (is_offline w || create_failed now w)) [
      | inl q ↦ rw q (remove_offline_workers-IsMap now m h)
      | inr q ↦ rw q (
        missing-Shrinks id (remove_offline_workers now m) m (λ j. kept_or_gone now m j h) missing,
        remove_offline_workers-IsMap now m h,
      )
    ]

pub remove_offline_workers-Agrees :
    (now : ℕ) (handles : Map String String) (m : Map String WorkerStatus)
    → Agrees handles m
    → Agrees handles (remove_offline_workers now m)
remove_offline_workers-Agrees now handles m h =
    shrinks-Agrees handles (remove_offline_workers now m) m (remove_offline_workers-IsMap now m h.0)
      (λ id. kept_or_gone now m id h.0) h

-- An entry more on both sides.
more-Shrinks :
    (k : String) (w : WorkerStatus) (a b : Map String WorkerStatus)
    → Shrinks a b
    → Shrinks ((k, w) ∷ a) ((k, w) ∷ b)
unfolding lookup
more-Shrinks k w a b h id = elim (Bool-cases (k == id)) [
  | inl q ↦ rw q (inl refl)
  | inr q ↦ rw q (h id)
]

remove_by_id-Shrinks :
    (worker_id : String) (m : Map String WorkerStatus)
    → IsMap m
    → IsMap (remove_worker_status_by_worker_id worker_id m)
      × Shrinks (remove_worker_status_by_worker_id worker_id m) m
unfolding remove_worker_status_by_worker_id lookup
remove_by_id-Shrinks worker_id [] h = (tt, λ id. inl refl)
remove_by_id-Shrinks worker_id ((id, w) ∷ m) (missing, h) =
    let (unique, shrinks) = remove_by_id-Shrinks worker_id m h in
    elim (Bool-cases (w.id == worker_id)) [
      | inl q ↦ rw q (h, λ j. tail_at j (Bool-cases (id == j)))
      | inr q ↦ rw q (
        (
          missing-Shrinks id (remove_worker_status_by_worker_id worker_id m) m shrinks missing,
          unique,
        ),
        more-Shrinks id w (remove_worker_status_by_worker_id worker_id m) m shrinks,
      )
    ]
  where
    tail_at :
        (j : String)
        → ((id == j) ≡ true) ⊎ ((id == j) ≡ false)
        → (lookup j m ≡ (if id == j then some w else lookup j m)) ⊎ (lookup j m ≡ none)
    tail_at j (inl q) = inr (subst (λ x. lookup x m ≡ none) ((eq_iff id j).0 q) missing)
    tail_at j (inr q) = inl (rw q refl)

pub remove_by_id-Agrees :
    (worker_id : String) (handles : Map String String) (m : Map String WorkerStatus)
    → Agrees handles m
    → Agrees handles (remove_worker_status_by_worker_id worker_id m)
remove_by_id-Agrees worker_id handles m h =
    let (unique, shrinks) = remove_by_id-Shrinks worker_id m h.0 in
    shrinks-Agrees handles (remove_worker_status_by_worker_id worker_id m) m unique shrinks h
