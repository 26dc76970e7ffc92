-- ===== src/Client.antt =====
-- How a node finds its server: client/tunnel/tunnel.go and client/bootstrap/mgr.go.
pub mod Web
pub mod Access
pub mod Bootstrap
pub mod Examples
