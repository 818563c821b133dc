-- ===== src/Master.antt =====
-- The master's side of the framework (lib/master/).
pub mod Entry
pub mod Manager
pub mod Creation
