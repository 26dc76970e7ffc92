-- ===== src/Ws.antt =====
-- ippop/api/ws: the tunnel manager's checks and counts.
pub mod Access
pub mod Traffic
pub mod Offline
mod Examples
