-- ===== src/Dm.antt =====
-- jobmaster/dm and pkg/dm: the job master of data migration.
pub mod Ticker
pub mod Runtime
pub mod Store
pub mod TaskManager
pub mod WorkerManager
pub mod MessageAgent
pub mod JobMaster
pub mod MessagePair
mod Tests
