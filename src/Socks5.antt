-- ===== src/Socks5.antt =====
-- ippop/api/socks5: the SOCKS5 front end of the POP server.
pub mod Net
pub mod Wire
pub mod Protocol
pub mod Datagram
pub mod Auth
pub mod Request
pub mod Counters
pub mod Udp
pub mod Associate
pub mod Samples
mod Examples
