-- ===== src/ServerMaster.antt =====
-- The server master (servermaster/).
pub mod JobFsm
pub mod Resource
pub mod Scheduler
pub mod ExecutorManager
pub mod JobManager
