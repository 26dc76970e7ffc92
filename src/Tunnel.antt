-- ===== src/Tunnel.antt =====
-- The tunnel between a server and a node: ippop/api/ws/{tunnel,tcpproxy,udpproxy}.go at the
-- server's end, client/tunnel/{tunnel,tcpproxy,udpproxy}.go at the node's end.
pub mod Message
pub mod Server
pub mod Node
pub mod World
pub mod Pipe
pub mod Panics
pub mod Calm
pub mod Samples
pub mod Examples
pub mod Keepalive
