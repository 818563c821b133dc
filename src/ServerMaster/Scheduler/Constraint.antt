-- ===== src/ServerMaster/Scheduler/Constraint.antt =====
-- getConstraint: the executor that a task's resources ask for.
use microcosm.Base.{
  String, ◌&&◌, not, List, [], ◌∷◌, ◌≡◌, ◌≢◌, refl, ◌⊎◌, inl, inr, arith, All, String_eq, ◌==◌,
  eq_iff, Bool-cases,
}
use microcosm.ServerMaster.Scheduler.{
  Placement, constrained, unconstrained, placement_error, resource_does_not_exist, other_error,
  PlacementConstrainer, resource_conflict, ok, err, constraint_from, get_constraint,
}

-- The task may run at the executor, as far as the resource goes.
abbrev pub Agrees : Placement → String → Type 0
Agrees (constrained y) x = (y ≡ "") ⊎ (y ≡ x)
Agrees unconstrained x = Unit
Agrees (placement_error e) x = ⊥

module _ (place : PlacementConstrainer) where
  abbrev pub AllAgree : List String → String → String → Type 0
  AllAgree rs ret x = All (λ r. Agrees (place r) x) rs × ((ret ≡ "") ⊎ (ret ≡ x))

  constraint_step :
      (r : String) (rs : List String) (ret last x : String) (p : Placement)
      → place r ≡ p
      → ((ret' last' : String) → constraint_from place rs ret' last' ≡ ok x → AllAgree rs ret' x)
      → constraint_from place (r ∷ rs) ret last ≡ ok x
      → AllAgree (r ∷ rs) ret x
  unfolding constraint_from
  constraint_step r rs ret last x (placement_error y) e ih h = absurd (ground arith)
  constraint_step r rs ret last x unconstrained e ih h =
      let (all, own) = ih ret last (ground arith) in ((rw e tt, all), own)
  constraint_step r rs ret last x (constrained y) e ih h =
      let (all, own) = ih y r (ground (arith, e)) in
      ((rw e own, all), ground (arith, eq_iff ret "", eq_iff ret y))

  pub constraint_from_agrees :
      (rs : List String) (ret last x : String)
      → constraint_from place rs ret last ≡ ok x
      → AllAgree rs ret x
  unfolding constraint_from
  constraint_from_agrees [] ret last x h = (tt, ground arith)
  constraint_from_agrees (r ∷ rs) ret last x h =
      constraint_step r rs ret last x (place r) refl
        (λ ret' last' h'. constraint_from_agrees rs ret' last' x h') h

  -- The resources that the error names, and where they are.
  abbrev pub IsConflict : List String → String → String → String → String → Type 0
  IsConflict rs a executor_a b executor_b =
      (place a ≡ constrained executor_a)
      × (place b ≡ constrained executor_b)
      × (executor_a ≢ executor_b)

  IsConflict-step :
      (r : String) (rs : List String) (ret last a ea b eb : String) (p : Placement)
      → place r ≡ p
      → (ret ≡ "") ⊎ (place last ≡ constrained ret)
      → ((ret' last' : String)
          → (ret' ≡ "") ⊎ (place last' ≡ constrained ret')
          → constraint_from place rs ret' last' ≡ err (resource_conflict a ea b eb)
          → IsConflict rs a ea b eb)
      → constraint_from place (r ∷ rs) ret last ≡ err (resource_conflict a ea b eb)
      → IsConflict (r ∷ rs) a ea b eb
  unfolding constraint_from
  IsConflict-step r rs ret last a ea b eb (placement_error (resource_does_not_exist y)) e w ih h =
      absurd (ground arith)
  IsConflict-step r rs ret last a ea b eb (placement_error (other_error y)) e w ih h =
      absurd (ground arith)
  IsConflict-step r rs ret last a ea b eb unconstrained e w ih h = ih ret last w (ground arith)
  IsConflict-step r rs ret last a ea b eb (constrained y) e w ih h =
      elim (Bool-cases (not (ret == "") && not (ret == y))) [
        | inl clash ↦ ground (arith, eq_iff ret "", eq_iff ret y)
        | inr same ↦ ih y r (inr e) (ground arith)
      ]

  IsConflict-from :
      (rs : List String) (ret last a ea b eb : String)
      → (ret ≡ "") ⊎ (place last ≡ constrained ret)
      → constraint_from place rs ret last ≡ err (resource_conflict a ea b eb)
      → IsConflict rs a ea b eb
  unfolding constraint_from
  IsConflict-from [] ret last a ea b eb w h = absurd (cc)
  IsConflict-from (r ∷ rs) ret last a ea b eb w h =
      IsConflict-step r rs ret last a ea b eb (place r) refl w
        (λ ret' last' w' h'. IsConflict-from rs ret' last' a ea b eb w' h') h

  -- A conflict names two resources that are bound to different executors.
  pub get_constraint-IsConflict :
      (rs : List String) (a executor_a b executor_b : String)
      → get_constraint place rs ≡ err (resource_conflict a executor_a b executor_b)
      → IsConflict rs a executor_a b executor_b
  unfolding get_constraint
  get_constraint-IsConflict rs a ea b eb h = IsConflict-from rs "" "" a ea b eb (inl refl) h
