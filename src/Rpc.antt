-- ===== src/Rpc.antt =====
-- The service's RPC methods on users, ippop/rpc/internal/logic.
pub mod Checks
pub mod Users
pub mod Routes
mod Examples
