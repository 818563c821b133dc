-- ===== src/Planner/DagWalker.antt =====
-- servermaster/planner/util/dag_walker.go, and the graph of model/subjob.go. The nodes stand on a heap,
-- and an output is a reference to one; nil is a reference to nothing. An id is only compared. The
-- callback threads a state of its own.
pub mod Visits
mod Tests
use microcosm.Base.{
  ℕ, zero, suc, Bool, true, false, ◌||◌, Option, none, some, List, [], ◌∷◌, ◌++◌, Map, lookup, ℕ_eq,
  ◌==◌, if◌then◌else◌, Outcome, returns, panics, ◌>>=◌,
}

pub record Node : Type 0 where
  pub id : ℕ
  pub outputs : List ℕ

abbrev pub default_maximal_depth : ℕ
default_maximal_depth = 100

pub data WalkError (E : Type 0) : Type 0 where
  depth_exceeded : ℕ → WalkError E
  from_callback : E → WalkError E

-- The walker's visited ids, and the state of the callback.
pub record Walk (S : Type 0) : Type 0 where
  pub visited : List ℕ
  pub state : S

abbrev pub is_in : ℕ → List ℕ → Bool
is_in x [] = false
is_in x (y ∷ ys) = (y == x) || is_in x ys

module _ {S E : Type 0} (heap : Map ℕ Node) (on_vertex : Node → S → S × Option E) where
  abbrev pub Walked : Type 0
  Walked = Outcome (Walk S × Option (WalkError E))

  -- The two tests that doWalk starts with.
  unfoldable pub unless_visited : ℕ → Walk S → (Node → Walked) → Walked
  unless_visited r w enter = elim (lookup r heap) [
    | none ↦ panics
    | some node ↦ elim (is_in node.id w.visited) [ true ↦ returns (w, none) | false ↦ enter node ]
  ]

  unfoldable pub walk_all : (ℕ → Walk S → Walked) → List ℕ → Walk S → Walked
  walk_all next [] w = returns (w, none)
  walk_all next (r ∷ rest) w = next r w >>= λ (w', e). elim e [
    | none ↦ walk_all next rest w'
    | some x ↦ returns (w', some x)
  ]

  unfoldable pub enter : (ℕ → Walk S → Walked) → Walk S → Node → Walked
  enter next w node =
      let (s, e) = on_vertex node w.state in
      elim e [
        | some x ↦ returns (record w { state = s }, some (from_callback x))
        | none ↦
            walk_all next node.outputs (record { visited = w.visited ++ node.id ∷ []; state = s })
      ]

  -- `left` is how much deeper the walk may go, one more than the maximal depth at the root.
  unfoldable pub do_walk : ℕ → ℕ → ℕ → Walk S → Walked
  do_walk zero depth r w = unless_visited r w (λ node. returns (w, some (depth_exceeded depth)))
  do_walk (suc left) depth r w = unless_visited r w (enter (do_walk left (suc depth)) w)

  unfoldable pub walk : ℕ → S → Walked
  walk root s = do_walk (suc default_maximal_depth) 0 root (record { visited = []; state = s })
