-- ===== src/Planner.antt =====
-- servermaster/planner/: the walk over a graph of tasks.
pub mod DagWalker
