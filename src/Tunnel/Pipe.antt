-- ===== src/Tunnel/Pipe.antt =====
-- A session of a tunnel as a pipe from the user to the target, client/tunnel and ippop/api/ws.
pub mod Ledger
pub mod Writes
pub mod Down
pub mod Run
pub mod Delivered
