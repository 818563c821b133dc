-- ===== src/Containers.antt =====
-- pkg/containers/: the queues.
pub mod SliceQueue
