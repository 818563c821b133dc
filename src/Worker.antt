-- ===== src/Worker.antt =====
-- lib/worker.go, lib/statusutil/writer.go, lib/message_router.go and lib/config: the side of a worker in
-- the framework.
pub mod Timeouts
pub mod MasterClient
pub mod Exit
pub mod Status
pub mod Lease
mod Tests
pub mod MessageRouter
