-- ===== src/Planner/DagWalker/Tests.antt =====
-- A walk over a diamond.
use microcosm.Base.{
  ℕ, suc, true, Option, none, some, [], ◌∷◌, Map, ◌≡◌, refl, arith, lookup, ℕ_eq, eqb_iff, String,
  Returns, returns,
}
use microcosm.Planner.DagWalker.{Node, is_in, walk, do_walk, enter, walk_all, unless_visited}
use microcosm.Planner.DagWalker.Visits.{IsGraph, IsDistinct, walk_visits}

abbrev diamond : Map ℕ Node
diamond =
    (0, record { id = 0; outputs = 1 ∷ 2 ∷ [] })
    ∷ (1, record { id = 1; outputs = 3 ∷ [] })
    ∷ (2, record { id = 2; outputs = 3 ∷ [] })
    ∷ (3, record { id = 3; outputs = [] })
    ∷ []

-- The callback counts.
abbrev tally : Node → ℕ → ℕ × Option String
tally node n = (suc n, none)

diamond-IsGraph : IsGraph diamond
unfolding lookup
diamond-IsGraph = record {
  keyed = λ r n q. ground (arith, eqb_iff 0 r, eqb_iff 1 r, eqb_iff 2 r, eqb_iff 3 r);
  live = λ r n q. ground (arith, eqb_iff 0 r, eqb_iff 1 r, eqb_iff 2 r, eqb_iff 3 r);
}

walk_visits_example : Returns (walk diamond tally 0 0) (λ (w, e).
    e ≡ none
    → (is_in 0 w.visited ≡ true)
      × ((x y : ℕ) (n : Node)
          → is_in x w.visited ≡ true
          → lookup x diamond ≡ some n
          → is_in y n.outputs ≡ true
          → is_in y w.visited ≡ true)
      × IsDistinct w.visited)
unfolding lookup
walk_visits_example = walk_visits diamond tally diamond-IsGraph 0 0 refl

walk-diamond :
    walk diamond tally 0 0 ≡ returns (record { visited = 0 ∷ 1 ∷ 3 ∷ 2 ∷ []; state = 4 }, none)
unfolding walk do_walk enter walk_all unless_visited lookup
walk-diamond = refl
