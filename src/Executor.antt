-- ===== src/Executor.antt =====
-- The executor (executor/).
pub mod TaskCommitter
pub mod TaskRunner
