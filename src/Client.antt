-- ===== src/Client.antt =====
-- services/tor-client: the onion keys of a circuit, the circuit, its builder, its reader, the pool with its
-- monitor, the SOCKS5 streams and the proxy.
pub mod Config
pub mod Wizard
pub mod Directory
pub mod Engine
pub mod Circuit
pub mod StreamIds
pub mod Builder
pub mod Pool
pub mod LeastLoaded
pub mod Stream
pub mod Monitor
pub mod Proxy
pub mod Tests
