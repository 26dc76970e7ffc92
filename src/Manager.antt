-- ===== src/Manager.antt =====
-- The manager, which sends each node to a server: manager/model and manager/internal/logic.
pub mod Store
pub mod Pops
pub mod Samples
pub mod Examples
